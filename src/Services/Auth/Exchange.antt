-- ===== src/Services/Auth/Exchange.antt =====
-- What the exchange of a refresh token is to leave in the database, apart from the code of
-- AuthService.refresh_token.
use production_library_manag.Prelude.{
  ℕ, ◌+◌, ◌*◌, ◌≡◌, refl, sym, ap, subst, ◌∙◌, none, some, Bool, true, false, not, ◌&&◌, List, [],
  ◌∷◌, String, Bool-cases, inl, inr, eq_iff, select, All, ◌==◌, arith,
}
use production_library_manag.Prelude.Rows.{
  find, put, insert, distinct_keys-IsKeyed, find-put-none, select-find, select-put,
  select-put_other, select-insert, select-insert_other, unselected-find,
}
use production_library_manag.Models.{RefreshToken, Db, token_key, satisfies_constraints}
use production_library_manag.Models.Constraints.{
  satisfied-tokens, save_token-satisfied, added_token-satisfied,
}
use production_library_manag.Session.{ok, scalar_one_or_none}
use production_library_manag.Repositories.Tokens
use production_library_manag.Services.Auth.{ClientMetadata}

-- The one row that a raw token with this fingerprint finds.
abbrev pub Finds : String → RefreshToken → Db → Type 0
Finds h t d = scalar_one_or_none (select (Tokens.has_hash h) d.tokens) ≡ ok (some t)

abbrev pub is_neither : (i j : ℕ) → RefreshToken → Bool
is_neither i j t = not (t.id == i) && not (t.id == j)

-- The old raw token finds its row, revoked and else unchanged; the new raw token finds a token of
-- the same user and family for this client, not revoked and good for seven days from now; every
-- other token and the other tables are as they were.
pub record IsExchanged (now : ℕ) (old_hash new_hash : String) (client : ClientMetadata)
    (t : RefreshToken) (before after : Db) : Type 0 where
  pub token : RefreshToken
  pub spent : Finds old_hash (record t { revoked = true }) after
  pub current : Finds new_hash token after
  pub owner : token.user_id ≡ t.user_id
  pub family : token.family_id ≡ t.family_id
  pub live : token.revoked ≡ false
  pub until : token.expires_at ≡ now + 7 * (24 * (60 * (60 * 1000000)))
  pub address : token.ip_address ≡ client.ip_address
  pub agent : token.user_agent ≡ client.user_agent
  pub device : token.device_name ≡ client.device_name
  pub others :
      select (is_neither t.id token.id) after.tokens
      ≡ select (is_neither t.id token.id) before.tokens
  pub rest : after ≡ record before { tokens = after.tokens }

one_found :
    (t : RefreshToken) (rows : List RefreshToken)
    → scalar_one_or_none rows ≡ ok (some t)
    → rows ≡ t ∷ []
one_found t [] e = cc
one_found t (x ∷ []) e = cc
one_found t (x ∷ y ∷ rows) e = cc

-- The row that a fingerprint finds is the row of its id.
Finds-find :
    (h : String) (t : RefreshToken) (d : Db)
    → satisfies_constraints d ≡ true
    → Finds h t d
    → (find t.id d.tokens ≡ some t) × (Tokens.has_hash h t ≡ true)
Finds-find h t d ordered found =
    let keyed = distinct_keys-IsKeyed d.tokens (satisfied-tokens d ordered) in
    let hits = select-find (Tokens.has_hash h) d.tokens keyed in
    let one = one_found t (select (Tokens.has_hash h) d.tokens) found in
    (subst (All (λ x. (find x.id d.tokens ≡ some x) × (Tokens.has_hash h x ≡ true))) one hits).0

module _ (old_hash new_hash : String) (t new : RefreshToken) (d : Db)
    (ordered : satisfies_constraints d ≡ true) (found : Finds old_hash t d)
    (unheard : select (Tokens.has_hash new_hash) d.tokens ≡ [])
    (unknown : find new.id d.tokens ≡ none) (hashed : new.token_hash ≡ new_hash) where
  abbrev spent_token : RefreshToken
  spent_token = record t { revoked = true }

  abbrev spent_rows : List RefreshToken
  spent_rows = put spent_token d.tokens

  pub rotation-satisfied :
      satisfies_constraints (record d { tokens = insert new spent_rows }) ≡ true
  rotation-satisfied =
      added_token-satisfied (record d { tokens = spent_rows }) new
        (find-put-none spent_token d.tokens new.id unknown)
        (save_token-satisfied d t spent_token (Finds-find old_hash t d ordered found).0 ordered)

  new_has_hash : Tokens.has_hash new_hash new ≡ true
  new_has_hash = (eq_iff new.token_hash new_hash).1 hashed

  t_has_not : Tokens.has_hash new_hash t ≡ false
  t_has_not =
      unselected-find (Tokens.has_hash new_hash) t.id t d.tokens unheard
        (Finds-find old_hash t d ordered found).0

  new_has_not : Tokens.has_hash old_hash new ≡ false
  new_has_not = elim (Bool-cases (Tokens.has_hash old_hash new)) [
    | inl same ↦
        let hit = (Finds-find old_hash t d ordered found).1 in
        let shared : t.token_hash ≡ new_hash =
          (eq_iff t.token_hash old_hash).0 hit
          ∙ sym ((eq_iff new.token_hash old_hash).0 same)
          ∙ hashed in
        let met : Tokens.has_hash new_hash t ≡ true = (eq_iff t.token_hash new_hash).1 shared in
        cc (t_has_not)
    | inr differs ↦ differs
  ]

  current_found : select (Tokens.has_hash new_hash) (insert new spent_rows) ≡ new ∷ []
  current_found =
      select-insert (Tokens.has_hash new_hash) new spent_rows
        (select-put_other (Tokens.has_hash new_hash) spent_token t d.tokens
            (Finds-find old_hash t d ordered found).0 t_has_not t_has_not
          ∙ unheard)
        new_has_hash

  spent_found : select (Tokens.has_hash old_hash) (insert new spent_rows) ≡ spent_token ∷ []
  spent_found =
      let (row, hit) = Finds-find old_hash t d ordered found in
      select-insert_other (Tokens.has_hash old_hash) new spent_rows new_has_not
      ∙ select-put (Tokens.has_hash old_hash) spent_token t d.tokens row hit hit
      ∙ ap (put spent_token) (one_found t (select (Tokens.has_hash old_hash) d.tokens) found)
      ∙ ground arith

  others_same :
      select (is_neither t.id new.id) (insert new spent_rows)
      ≡ select (is_neither t.id new.id) d.tokens
  others_same =
      select-insert_other (is_neither t.id new.id) new spent_rows (ground arith)
      ∙ select-put_other (is_neither t.id new.id) spent_token t d.tokens
          (Finds-find old_hash t d ordered found).0 (ground arith) (ground arith)

  pub rotation-IsExchanged :
      (now : ℕ) (client : ClientMetadata)
      → new.user_id ≡ t.user_id
      → new.family_id ≡ t.family_id
      → new.revoked ≡ false
      → new.expires_at ≡ now + 7 * (24 * (60 * (60 * 1000000)))
      → new.ip_address ≡ client.ip_address
      → new.user_agent ≡ client.user_agent
      → new.device_name ≡ client.device_name
      → IsExchanged now old_hash new_hash client t d (record d { tokens = insert new spent_rows })
  rotation-IsExchanged now client owner family live until address agent device = record {
    token = new;
    spent = ap scalar_one_or_none spent_found;
    current = ap scalar_one_or_none current_found;
    owner = owner;
    family = family;
    live = live;
    until = until;
    address = address;
    agent = agent;
    device = device;
    others = others_same;
    rest = refl;
  }
