-- ===== src/Staff/Verify.antt =====
-- VerifyAttempt (internal/handler/comp_verify.go) on every branch.
use mathlib.Core.Path.{subst}
use routewerk.Prelude.{
  ℕ, ◌≡◌, refl, sym, ap, ◌∙◌, ◌⊎◌, inl, inr, String, str_eq, eq_iff, true, false, List, [], ◌∷◌,
  Option, none, some, arith, Bool-cases, Option-cases, if◌then◌else◌,
}
use routewerk.Attempts.Types.{Attempt, Db, ok}
use routewerk.Attempts.Store.{get, get_by_id, find_attempt, is_pair, stamp, verify}
use routewerk.Attempts.Apply.{state_in}
use routewerk.Rbac.Matrix.{role_setter}
use routewerk.Leaderboard.Types.{Competition}
use routewerk.Leaderboard.BoardCache.{invalidate}
use routewerk.Staff.Endpoints.{
  Directory, Conditions, World, ok_attempt, error, Handled, load_attempt_for_staff, attempt_to_api,
  rejected_with, verify_loaded, verify_attempt,
}
use routewerk.Staff.Cases.{
  Loaded-cases, IsAuthorised, IsRefused, refused, load_attempt_for_staff-loaded,
}

abbrev stamped : String → String → ℕ → Attempt → Attempt
stamped id verifier now a =
    if str_eq a.id id then record a { verified_by = some verifier; verified_at = some now } else a

find_attempt-stamp :
    (id verifier : String) (now : ℕ) (r p : String) (rows : List Attempt)
    → find_attempt (is_pair r p) (stamp id verifier now rows)
      ≡ (elim (find_attempt (is_pair r p) rows) [
        | none ↦ none
        | some a ↦ some (stamped id verifier now a)
      ])
unfolding find_attempt stamp
find_attempt-stamp id verifier now r p [] = refl
find_attempt-stamp id verifier now r p (a ∷ rows) =
    ground (arith, find_attempt-stamp id verifier now r p rows)

find_by_id-stamp :
    (id verifier : String) (now : ℕ) (rows : List Attempt)
    → find_attempt (λ a. str_eq a.id id) (stamp id verifier now rows)
      ≡ (elim (find_attempt (λ a. str_eq a.id id) rows) [
        | none ↦ none
        | some a ↦ some (record a { verified_by = some verifier; verified_at = some now })
      ])
unfolding find_attempt stamp
find_by_id-stamp id verifier now [] = refl
find_by_id-stamp id verifier now (a ∷ rows) = ground (arith, find_by_id-stamp id verifier now rows)

found_by_id :
    (id : String) (att : Attempt) (rows : List Attempt)
    → find_attempt (λ a. str_eq a.id id) rows ≡ some att
    → str_eq att.id id ≡ true
unfolding find_attempt
found_by_id id att [] e = cc
found_by_id id att (a ∷ rows) e = elim (Bool-cases (str_eq a.id id)) [
  | inl q ↦ let same : a ≡ att = ground (arith, e, q) in subst (λ x. str_eq x.id id ≡ true) same q
  | inr q ↦ found_by_id id att rows (ground (arith, e, q))
]

-- What a signature leaves as it is: the log, and the state of every attempt.
pub record IsSigned (db db' : Db) : Type 0 where
  pub same_log : db'.log ≡ db.log
  pub same_next : db'.next_log_id ≡ db.next_log_id
  pub same_states : (r p : String) → state_in r p db' ≡ state_in r p db

verify-IsSigned :
    (id verifier : String) (now : ℕ) (db : Db) → IsSigned db (verify id verifier now db).0
unfolding verify get
verify-IsSigned id verifier now db =
    elim (Option-cases (find_attempt (λ a. str_eq a.id id) db.attempts)) [
      | inl n ↦
          rw (n, verify) (record { same_log = refl; same_next = refl; same_states = λ r p. refl })
      | inr (a, n) ↦
          rw (n, verify)
            (record {
              same_log = refl;
              same_next = refl;
              same_states = λ r p. elim (Option-cases (find_attempt (is_pair r p) db.attempts)) [
                | inl m ↦ ground (arith, m, find_attempt-stamp id verifier now r p db.attempts)
                | inr (b, m) ↦ ground (arith, m, find_attempt-stamp id verifier now r p db.attempts)
              ];
            })
    ]

module _ {B U : Type 0} (parse_uuid : String → Option U) (nil_uuid : U) (c : Conditions)
    (dir : Directory) (actor attempt_id : String) (w : World B) where
  -- A signature that was written: by a caller who may, on the attempt named, changing nothing else.
  pub record IsVerified (h : Handled B U) : Type 0 where
    pub att : Attempt
    pub comp : Competition
    pub found : get_by_id attempt_id w.db ≡ ok att
    pub authorised : IsAuthorised c dir actor att comp
    pub signed : IsSigned w.db h.world.db
    pub by_actor :
        get_by_id att.id h.world.db
        ≡ ok (record att { verified_by = some actor; verified_at = some c.now })

  -- The signature was written, and then either everything was done that follows, or the attempt could
  -- not be read again, which is answered as an error and not announced.
  abbrev pub IsAnswered : Attempt → Competition → Handled B U → Type 0
  IsAnswered att comp h =
      ((h.answer
          ≡ ok_attempt (
              attempt_to_api parse_uuid nil_uuid c dir actor attempt_id w
                (record att { verified_by = some actor; verified_at = some c.now })))
        × (h.is_announced ≡ true)
        × (h.world.cache ≡ invalidate comp.id w.cache))
      ⊎ ((c.refetch_fails ≡ true)
          × (h.answer ≡ error 500 "internal error")
          × (h.is_announced ≡ false)
          × (h.world.cache ≡ w.cache))

  get_by_id_self :
      (att : Attempt) → get_by_id attempt_id w.db ≡ ok att → get_by_id att.id w.db ≡ ok att
  unfolding get_by_id
  get_by_id_self att e =
      let same : att.id ≡ attempt_id = ground (
        arith,
        found_by_id attempt_id att w.db.attempts (ground (arith, e)),
        eq_iff att.id attempt_id,
      ) in
      subst (λ i. get_by_id i w.db ≡ ok att) (sym same) e

  abbrev db' : Attempt → Db
  db' att = (verify att.id actor c.now w.db).0

  verify-found :
      (att : Attempt)
      → get_by_id att.id w.db ≡ ok att
      → (verify att.id actor c.now w.db ≡ (db' att, ok tt))
        × (get_by_id att.id (db' att)
            ≡ ok (record att { verified_by = some actor; verified_at = some c.now }))
  unfolding verify get_by_id
  verify-found att e =
      let m : find_attempt (λ a. str_eq a.id att.id) w.db.attempts ≡ some att = ground (arith, e) in
      (ground (arith, m), ground (arith, m, find_by_id-stamp att.id actor c.now w.db.attempts))

  of_found :
      (att : Attempt) (comp : Competition) (h : Handled B U)
      → get_by_id attempt_id w.db ≡ ok att
      → IsAuthorised c dir actor att comp
      → h.world.db ≡ db' att
      → IsAnswered att comp h
      → (v : IsVerified h) × IsAnswered v.att v.comp h
  of_found att comp h e allowed q a = (
    record {
      att = att;
      comp = comp;
      found = e;
      authorised = allowed;
      signed = subst (IsSigned w.db) (sym q) (verify-IsSigned att.id actor c.now w.db);
      by_actor = ap (get_by_id att.id) q ∙ (verify-found att (get_by_id_self att e)).1;
    },
    a,
  )

  abbrev IsHandled : Handled B U → Type 0
  IsHandled h =
      IsRefused parse_uuid nil_uuid c dir actor attempt_id w h
      ⊎ ((v : IsVerified h) × IsAnswered v.att v.comp h)

  because : (h h' : Handled B U) → h ≡ h' → IsHandled h' → IsHandled h
  because h h' e k = subst IsHandled (sym e) k

  abbrev unsent : Attempt → Handled B U
  unsent att = record {
    world = record w { db = db' att };
    is_announced = false;
    answer = error 500 "internal error";
  }

  abbrev sent : Attempt → Competition → Handled B U
  sent att comp = record {
    world = record { db = db' att; cache = invalidate comp.id w.cache };
    is_announced = true;
    answer = ok_attempt (
        attempt_to_api parse_uuid nil_uuid c dir actor attempt_id w
          (record att { verified_by = some actor; verified_at = some c.now }));
  }

  verify_loaded-cases :
      (att : Attempt) (comp : Competition)
      → get_by_id attempt_id w.db ≡ ok att
      → IsAuthorised c dir actor att comp
      → let h = verify_loaded parse_uuid nil_uuid c dir actor attempt_id w att comp in
        IsRefused parse_uuid nil_uuid c dir actor attempt_id w h
        ⊎ ((v : IsVerified h) × IsAnswered v.att v.comp h)
  unfolding verify_loaded
  verify_loaded-cases att comp e allowed =
      let (done, again) = verify-found att (get_by_id_self att e) in
      elim (Bool-cases c.verify_fails) [
        | inl f ↦
            because _
              (rejected_with parse_uuid nil_uuid c dir actor attempt_id w 500 "internal error")
              (ground (arith, f))
              (inl (refused parse_uuid nil_uuid c dir actor attempt_id w 500 "internal error"))
        | inr f ↦ elim (Bool-cases c.refetch_fails) [
          | inl g ↦
              because _ (unsent att) (ground (arith, f, g, done))
                (inr (of_found att comp (unsent att) e allowed refl (inr (g, refl, refl, refl))))
          | inr g ↦
              because _ (sent att comp) (ground (arith, f, g, done, again))
                (inr (of_found att comp (sent att comp) e allowed refl (inl (refl, refl, refl))))
        ]
      ]

  -- VerifyAttempt on every branch: a refusal changes, drops and announces nothing and answers an error;
  -- otherwise the attempt exists, some membership of the caller in the
  -- organization of the location of its competition, whatever location it is for, is at least a setter's, the
  -- attempt carries the caller's signature and the time, and no state and no log entry has changed; the
  -- boards are then dropped and the change is announced, unless the attempt cannot be read again.
  pub verify_attempt-cases :
      let h = verify_attempt parse_uuid nil_uuid c dir actor attempt_id w in
      IsRefused parse_uuid nil_uuid c dir actor attempt_id w h
      ⊎ ((v : IsVerified h) × IsAnswered v.att v.comp h)
  unfolding verify_attempt
  verify_attempt-cases =
      elim (Loaded-cases
        (load_attempt_for_staff parse_uuid nil_uuid c dir actor attempt_id w role_setter)) [
          | inr (status, message, e) ↦
              rw (e, verify_attempt)
                (inl (refused parse_uuid nil_uuid c dir actor attempt_id w status message))
          | inl ((att, comp), e) ↦
              let (found, allowed) =
                load_attempt_for_staff-loaded parse_uuid nil_uuid c dir actor attempt_id w att comp
                  e in
              rw (e, verify_attempt) (verify_loaded-cases att comp found allowed)
        ]
