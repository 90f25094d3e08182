-- ===== src/Inventory/Rows.antt =====
-- How writing one row moves the accounts.
use production_library_manag.Prelude.{
  ℕ, ◌+◌, ◌≡◌, ◌≤◌, refl, Option, none, some, Bool, true, false, ◌==◌, if◌then◌else◌, arith, ==_iff,
  subst, inl, inr, Bool-cases, Option-cases, count_mono,
}
use production_library_manag.Prelude.Rows.{
  find, insert, find-put, find-insert_old, find-insert_new, count-put, count-insert, IsKeyed,
  put-IsKeyed,
}
use production_library_manag.Enums.{is_out, is_hold}
use production_library_manag.Models.{
  Book, BorrowRecord, Reservation, Db, book_key, borrow_key, reservation_key,
}
use production_library_manag.Repositories.Books
use production_library_manag.Repositories.Borrows
use production_library_manag.Repositories.Reservations
use production_library_manag.Services.Reservations.{is_loan_of}
use production_library_manag.Services.Borrows.{is_hold_for}
use production_library_manag.Inventory.Defs.{
  is_for, loans, holds, requests, in_hand, Counts, IsBalanced,
}

-- Copies move between the places; of a book that is not in the table nothing is added.
Counts-move :
    (o : Option Book) (out kept asked hand out' kept' asked' hand' : ℕ)
    → Counts o out kept asked hand
    → out' + kept' + hand' ≡ out + kept + hand
    → (o ≡ none → out' ≤ out)
    → (o ≡ none → asked' ≤ asked)
    → Counts o out' kept' asked' hand'
Counts-move none out kept asked hand out' kept' asked' hand' c e p q =
    (omega (arith, p refl, c.0), omega (arith, q refl, c.1))
Counts-move (some b) out kept asked hand out' kept' asked' hand' c e p q =
    λ live. omega (arith, c live)

-- A loan that ends puts its copy in hand.
pub return-IsBalanced :
    (d : Db) (old r : BorrowRecord)
    → IsBalanced none d
    → find r.id d.borrows ≡ some old
    → r.book_id ≡ old.book_id
    → is_out old.status ≡ true
    → is_out r.status ≡ false
    → IsBalanced (some r.book_id) (Borrows.save r d)
unfolding loans holds requests
return-IsBalanced d old r b e same was now = record {
  counted = λ i.
      let shift = count-put (is_loan_of i) r old d.borrows e in
      Counts-move (find i d.books) _ _ _ _ _ _ _ _ (b.counted i) (ground (arith, shift))
        (λ absent. ground (arith, shift)) (λ absent. omega arith);
  keyed = b.keyed;
}

-- A loan that stays out changes nothing.
pub renew-IsBalanced :
    (d : Db) (hand : Option ℕ) (old r : BorrowRecord)
    → IsBalanced hand d
    → find r.id d.borrows ≡ some old
    → r.book_id ≡ old.book_id
    → is_out r.status ≡ is_out old.status
    → IsBalanced hand (Borrows.save r d)
unfolding loans holds requests
renew-IsBalanced d hand old r b e same now = record {
  counted = λ i.
      let shift = count-put (is_loan_of i) r old d.borrows e in
      Counts-move (find i d.books) _ _ _ _ _ _ _ _ (b.counted i) (ground (arith, shift))
        (λ absent. ground (arith, shift)) (λ absent. omega arith);
  keyed = b.keyed;
}

-- A new loan takes the copy in hand.
pub loan-IsBalanced :
    (d : Db) (book : Book) (r : BorrowRecord)
    → IsBalanced (some r.book_id) d
    → find r.book_id d.books ≡ some book
    → is_out r.status ≡ true
    → IsBalanced none (record d { borrows = insert r d.borrows })
unfolding loans holds requests
loan-IsBalanced d book r b e now = record {
  counted = λ i.
      let shift = count-insert (is_loan_of i) r d.borrows in
      Counts-move (find i d.books) _ _ _ _ _ _ _ _ (b.counted i) (ground (arith, shift))
        (λ absent. grind (arith, shift)) (λ absent. omega arith);
  keyed = b.keyed;
}

module _ (d : Db) (old r : Reservation) (e : find r.id d.reservations ≡ some old)
    (same : r.book_id ≡ old.book_id) where
  -- A hold that ends puts its copy in hand.
  pub release-IsBalanced :
      IsBalanced none d
      → is_hold old.status ≡ true
      → is_hold r.status ≡ false
      → IsBalanced (some r.book_id) (Reservations.save r d)
  unfolding loans holds requests
  release-IsBalanced b was now = record {
    counted = λ i.
        let kept = count-put (is_hold_for i) r old d.reservations e in
        let asked = count-put (is_for i) r old d.reservations e in
        Counts-move (find i d.books) _ _ _ _ _ _ _ _ (b.counted i) (ground (arith, kept))
          (λ absent. omega arith) (λ absent. ground (arith, asked));
    keyed = put-IsKeyed r d.reservations b.keyed;
  }

  -- A reservation that comes to hold a copy takes the one in hand.
  pub hold-IsBalanced :
      IsBalanced (some r.book_id) d
      → is_hold old.status ≡ false
      → is_hold r.status ≡ true
      → IsBalanced none (Reservations.save r d)
  unfolding loans holds requests
  hold-IsBalanced b was now = record {
    counted = λ i.
        let kept = count-put (is_hold_for i) r old d.reservations e in
        let asked = count-put (is_for i) r old d.reservations e in
        Counts-move (find i d.books) _ _ _ _ _ _ _ _ (b.counted i) (ground (arith, kept))
          (λ absent. omega arith) (λ absent. ground (arith, asked));
    keyed = put-IsKeyed r d.reservations b.keyed;
  }

  -- A reservation that holds nothing before and after changes nothing.
  pub wait-IsBalanced :
      IsBalanced none d
      → is_hold old.status ≡ false
      → is_hold r.status ≡ false
      → IsBalanced none (Reservations.save r d)
  unfolding loans holds requests
  wait-IsBalanced b was now = record {
    counted = λ i.
        let kept = count-put (is_hold_for i) r old d.reservations e in
        let asked = count-put (is_for i) r old d.reservations e in
        Counts-move (find i d.books) _ _ _ _ _ _ _ _ (b.counted i) (ground (arith, kept))
          (λ absent. omega arith) (λ absent. ground (arith, asked));
    keyed = put-IsKeyed r d.reservations b.keyed;
  }

-- A new reservation waits for a book of the table.
pub place-IsBalanced :
    (d : Db) (book : Book) (r : Reservation)
    → IsBalanced none d
    → find r.book_id d.books ≡ some book
    → is_hold r.status ≡ false
    → IsKeyed (insert r d.reservations)
    → IsBalanced none (record d { reservations = insert r d.reservations })
unfolding loans holds requests
place-IsBalanced d book r b e now keyed = record {
  counted = λ i.
      let kept = count-insert (is_hold_for i) r d.reservations in
      let asked = count-insert (is_for i) r d.reservations in
      Counts-move (find i d.books) _ _ _ _ _ _ _ _ (b.counted i) (ground (arith, kept))
        (λ absent. omega arith) (λ absent. grind (arith, asked));
  keyed = keyed;
}

-- A change of a book's row, seen with its hand before and after.
Counts-book :
    (old b : Book) (out kept asked hand hand' : ℕ)
    → Counts (some old) out kept asked hand
    → (b.is_deleted ≡ false
        → (old.is_deleted ≡ false)
          × (b.available_copies + hand' + old.total_copies
              ≡ old.available_copies + hand + b.total_copies))
    → Counts (some b) out kept asked hand'
Counts-book old b out kept asked hand hand' c h = λ live. omega (arith, c (h live).0, (h live).1)

pub save_book-IsBalanced :
    (d : Db) (hand hand' : Option ℕ) (old b : Book)
    → IsBalanced hand d
    → find b.id d.books ≡ some old
    → (b.is_deleted ≡ false
        → (old.is_deleted ≡ false)
          × (b.available_copies + in_hand hand' b.id + old.total_copies
              ≡ old.available_copies + in_hand hand b.id + b.total_copies))
    → ((i : ℕ) → (b.id ≡ i → ⊥) → in_hand hand' i ≡ in_hand hand i)
    → IsBalanced hand' (Books.save b d)
unfolding loans holds requests
save_book-IsBalanced d hand hand' old b bal e h others = record {
  counted = λ i. elim (Bool-cases (b.id == i)) [
    | inl hit ↦
        rw (find-put b old d.books i e, hit)
          (subst (λ j. Counts (some b) (loans j d) (holds j d) (requests j d) (in_hand hand' j))
            ((==_iff b.id i).0 hit) changed)
    | inr miss ↦
        rw (find-put b old d.books i e, miss, others i (λ same. ground arith)) (bal.counted i)
  ];
  keyed = bal.keyed;
}
  where
    changed : Counts (some b) (loans b.id d) (holds b.id d) (requests b.id d) (in_hand hand' b.id)
    changed =
        Counts-book old b (loans b.id d) (holds b.id d) (requests b.id d) (in_hand hand b.id)
          (in_hand hand' b.id) (rw e at (bal.counted b.id)) h

holds-le-requests : (i : ℕ) (d : Db) → holds i d ≤ requests i d
unfolding holds requests
holds-le-requests i d = count_mono (is_hold_for i) (is_for i) d.reservations (λ r h. ground arith)

-- A new book has all of its copies on the shelf.
pub new_book-IsBalanced :
    (d : Db) (b : Book)
    → IsBalanced none d
    → b.available_copies ≡ b.total_copies
    → IsBalanced none (record d { books = insert b d.books })
unfolding loans holds requests
new_book-IsBalanced d b bal full = record {
  counted = λ i. elim (Option-cases (find i d.books)) [
    | inl absent ↦ rw (find-insert_new b d.books i absent) (added i absent (b.id == i))
    | inr (old, e) ↦ rw (find-insert_old b old d.books i e) (rw e at (bal.counted i))
  ];
  keyed = bal.keyed;
}
  where
    added :
        (i : ℕ)
        → find i d.books ≡ none
        → (same : Bool)
        → Counts (if same then some b else none) (loans i d) (holds i d) (requests i d) 0
    added i absent true =
        let gone : Counts none (loans i d) (holds i d) (requests i d) 0 =
          rw absent at (bal.counted i) in
        λ live. omega (arith, gone.0, gone.1, holds-le-requests i d)
    added i absent false = rw absent at (bal.counted i)
