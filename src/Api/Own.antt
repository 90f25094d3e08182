-- ===== src/Api/Own.antt =====
-- The member routes act for the caller's own profile.
use production_library_manag.Prelude.{
  ℕ, ◌≡◌, refl, ap, subst, ◌∙◌, some, Bool, true, false, ◌&&◌, not, select, ◌==◌, ==_iff, arith,
}
use production_library_manag.Prelude.Rows.{find}
use production_library_manag.Enums.{UserRole, ReservationStatus, is_active_reservation, is_hold}
use production_library_manag.Errors.{Error}
use production_library_manag.Models.{User, Member, Reservation, Db, member_key, reservation_key}
use production_library_manag.Session.{M, Session, Result, ok, err, scalar_one_or_none, pure, flush}
use production_library_manag.Session.Logic.{
  Ensures, OnOk, Reads, reads-Ensures, query_one-Ensures, or_raise-Ensures, raise_if-Ensures,
  found-Ensures, >>=-Ensures, weaken-Ensures, strengthen-Ensures, both-Ensures,
  transactional-Ensures,
}
use production_library_manag.Session.Looks.{Looks}
use production_library_manag.Repositories.Members
use production_library_manag.Repositories.Selection.{get_reservation-Ensures}
use production_library_manag.Repositories.Reservations as Rows
use production_library_manag.Services.Reservations
use production_library_manag.Api.Dependencies.{
  Http, get_current_user, require_role, is_member, current_member,
}
use production_library_manag.Api.Caller.{
  is_false, IsCaller, get_current_user-IsCaller, require_role-IsCaller,
}
use production_library_manag.Api.Reading.{get_current_user-Looks, require_role-Looks}
use production_library_manag.Api.Routes

-- What does not depend on the database holds to the end.
module _ {A : Type 0} (C : Type 0) where
  const-OnOk : (x : Result A × Session) → C → OnOk (λ _ _. C) x
  const-OnOk (ok a, s) c = c
  const-OnOk (err e, s) c = tt

  pub const-Ensures : (m : M A) → Ensures (λ _. C) m (λ _ _. C)
  const-Ensures m = record { on_ok = λ s c. const-OnOk (m s) c }

Looks-Reads : {A : Type 0} (m : M A) → Looks m → Reads m
Looks-Reads m l = record { same_db = λ s. ap (λ x. x.db) (l.same s) }

is_member-eq : (role : UserRole) → is_member role ≡ true → role ≡ UserRole.member
is_member-eq UserRole.member h = refl
is_member-eq UserRole.librarian h = cc
is_member-eq UserRole.admin h = cc

-- The caller is known, and the member is their only profile that is not deleted.
pub record IsOwn (http : Http) (d : Db) (member : Member) : Type 0 where
  pub user : User
  pub caller : IsCaller http d user
  pub profile :
      scalar_one_or_none (select (λ m. m.user_id == user.id && not m.is_deleted) d.members)
      ≡ ok (some member)

module _ (http : Http) (start : Db) where
  abbrev Known : User → Db → Type 0
  Known user d = (d ≡ start) × IsCaller http d user

  pub caller-Known : Ensures (λ d. d ≡ start) (get_current_user http) Known
  caller-Known =
      strengthen-Ensures _ (λ d h. (h, tt))
        (both-Ensures (get_current_user http)
          (reads-Ensures (λ d. d ≡ start) _ (Looks-Reads _ (get_current_user-Looks http)))
          (get_current_user-IsCaller http))

  role-Known :
      (allowed : UserRole → Bool)
      → Ensures
          (λ d. d ≡ start)
          (require_role allowed http)
          (λ u d. Known u d × (allowed u.role ≡ true))
  role-Known allowed =
      weaken-Ensures _
        (strengthen-Ensures _ (λ d h. (h, tt))
          (both-Ensures (require_role allowed http)
            (reads-Ensures (λ d. d ≡ start) _ (Looks-Reads _ (require_role-Looks http allowed)))
            (require_role-IsCaller http allowed)))
        (λ u d h. ((h.0, h.1.0), h.1.1))

  -- The same for a user who is known to be a member.
  abbrev IsOwnAsMember : Member → Type 0
  IsOwnAsMember m = (own : IsOwn http start m) × (own.user.role ≡ UserRole.member)

  -- What the profile's look-up establishes.
  profile-IsOwn_of :
      (user : User)
      → Ensures
          (Known user)
          (current_member user)
          (λ m d. (d ≡ start) × (own : IsOwn http start m) × (own.user ≡ user))
  unfolding current_member Members.get_by_user_id
  profile-IsOwn_of user =
      >>=-Ensures _ _
        (query_one-Ensures (Known user)
          (λ d. select (λ m. m.user_id == user.id && not m.is_deleted) d.members))
        λ o. weaken-Ensures _ (or_raise-Ensures _ o Error.forbidden) λ m d h. (
          h.0.0.0,
          record {
            user = user;
            caller = subst (λ d. IsCaller http d user) h.0.0.0 h.0.0.1;
            profile = ground (arith, h.0.1, h.1, h.0.0.0);
          },
          refl,
        )

  pub profile-IsOwn :
      (user : User)
      → Ensures (Known user) (current_member user) (λ m d. (d ≡ start) × IsOwn http start m)
  profile-IsOwn user = weaken-Ensures _ (profile-IsOwn_of user) (λ m d h. (h.0, h.1))

  profile-IsOwnAsMember :
      (user : User)
      → Ensures
          (λ d. Known user d × (is_member user.role ≡ true))
          (current_member user)
          (λ m d. (d ≡ start) × IsOwnAsMember m)
  profile-IsOwnAsMember user =
      weaken-Ensures _
        (both-Ensures (current_member user) (profile-IsOwn_of user)
          (const-Ensures (is_member user.role ≡ true) (current_member user)))
        (λ m d h. (h.0.0, (h.0.1, ap (λ u. u.role) h.0.2 ∙ is_member-eq user.role h.1)))

-- The cancelled row: it was in the table under its id, active, and of the member.
pub record IsCancelled (d : Db) (i member_id : ℕ) (r : Reservation) : Type 0 where
  pub old : Reservation
  pub row : find i d.reservations ≡ some old
  pub mine : old.member_id ≡ member_id
  pub active : is_active_reservation old.status ≡ true
  pub answer : r ≡ Reservations.closed_as ReservationStatus.cancelled old

module _ (http : Http) (start : Db) (i : ℕ) where
  module _ (member : Member) where
    abbrev Mine : Db → Type 0
    Mine d = (d ≡ start) × IsOwnAsMember http start member

    abbrev Answer : Reservation → Type 0
    Answer r = IsOwnAsMember http start member × IsCancelled start i member.id r

    abbrev closed : Reservation → Reservation
    closed = Reservations.closed_as ReservationStatus.cancelled

    answered :
        (res : Reservation)
        → Ensures (λ _. Answer (closed res)) (pure (closed res)) (λ r _. Answer r)
    answered res = record { on_ok = λ s h. h }

    cancel-Answer :
        Ensures Mine (Reservations.cancel_reservation http.env i member.id) (λ r _. Answer r)
    unfolding Reservations.cancel_reservation Reservations.cancel_reservation_body
    cancel-Answer = transactional-Ensures _ (
        >>=-Ensures _ _ (get_reservation-Ensures Mine http.env i) λ found.
          >>=-Ensures _ _
            (found-Ensures (λ d. find i d.reservations) found Error.reservation_not_found)
            λ res.
              >>=-Ensures _ _
                (raise_if-Ensures _ (not (res.member_id == member.id)) Error.reservation_not_found)
                λ _.
                  >>=-Ensures _ _
                    (raise_if-Ensures _ (not (is_active_reservation res.status)) Error.value_error)
                    λ _.
                      strengthen-Ensures _ (λ d h. established d res h)
                        (>>=-Ensures _ _
                          (const-Ensures (Answer (closed res)) (Rows.update (closed res)))
                          λ _. >>=-Ensures _ _ (const-Ensures (Answer (closed res)) flush) λ _.
                            >>=-Ensures _ _
                              (const-Ensures (Answer (closed res))
                                (Reservations.promote_if (is_hold res.status) http.env res.book_id))
                              λ _. answered res))
      where
        established :
            (d : Db) (res : Reservation)
            → ((Mine d × (find i d.reservations ≡ some res))
                × (not (res.member_id == member.id) ≡ false))
              × (not (is_active_reservation res.status) ≡ false)
            → Answer (closed res)
        established d res h = (
          h.0.0.0.1,
          record {
            old = res;
            row = ground (arith, h.0.0.1, h.0.0.0.0);
            mine = (==_iff res.member_id member.id).0 (is_false _ h.0.1);
            active = is_false _ h.1;
            answer = refl;
          },
        )

-- When the route for cancelling answers, the request was one of a known active user with the role
-- MEMBER, and the cancelled reservation was an active one of that user's own profile.
pub cancel_reservation-IsCancelled :
    (http : Http) (i : ℕ) (s s' : Session) (r : Reservation)
    → Routes.cancel_reservation http i s ≡ (ok r, s')
    → (member : Member) × (own : IsOwn http s.db member) × (own.user.role ≡ UserRole.member)
      × IsCancelled s.db i member.id r
unfolding Routes.cancel_reservation
cancel_reservation-IsCancelled http i s s' r e =
    subst
      (OnOk (λ r _.
        (member : Member) × (own : IsOwn http s.db member) × (own.user.role ≡ UserRole.member)
        × IsCancelled s.db i member.id r))
      e
      ((>>=-Ensures _ _ (role-Known http s.db is_member) λ user.
          >>=-Ensures _ _ (profile-IsOwnAsMember http s.db user) λ member.
            weaken-Ensures _ (cancel-Answer http s.db i member)
              (λ r d h. (member, h.0.0, h.0.1, h.1))).on_ok
        s refl)
