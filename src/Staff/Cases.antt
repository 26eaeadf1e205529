-- ===== src/Staff/Cases.antt =====
-- Every branch of VerifyAttempt and OverrideAttempt (internal/handler/comp_verify.go): what a refusal
-- leaves, and what a success has checked and done.
use mathlib.Core.Path.{subst}
use routewerk.Prelude.{
  ℕ, ◌≡◌, refl, ap, ◌∙◌, ◌⊎◌, inl, inr, String, str_eq, true, false, List, [], ◌∷◌, Option, some,
  arith, Bool-cases, Option-cases,
}
use routewerk.Prelude.Int.{neg_part}
use routewerk.Attempts.Types.{Attempt, attempt_not_found, ok}
use routewerk.Attempts.Store.{get_by_id, apply_action}
use routewerk.Attempts.Transaction.{IsApplied}
use routewerk.Attempts.Apply.{Result-cases}
use routewerk.Authz.Middleware.{location_rows, lookup_location_membership}
use routewerk.Authz.Highest.{any, query_highest-any}
use routewerk.Rbac.Matrix.{has_any_role, role_setter}
use routewerk.Leaderboard.Types.{Competition, Registration}
use routewerk.Leaderboard.Queries.{find_competition}
use routewerk.Leaderboard.BoardCache.{invalidate}
use routewerk.Staff.Endpoints.{
  AttemptOverride, Directory, Conditions, World, ok_attempt, error, Handled, find_registration,
  Loaded, loaded, stopped, load_comp, require_comp_role, load_attempt_for_staff,
  load_comp_for_staff, is_uuid, attempt_to_api, rejected_with, override_input, has_negative_zone,
}

pub Loaded-cases {ℓ} :
    {A : Type ℓ} (l : Loaded A)
    → ((a : A) × (l ≡ loaded a))
      ⊎ ((status : ℕ) × (message : String) × (l ≡ stopped status message))
Loaded-cases (loaded a) = inl (a, refl)
Loaded-cases (stopped status message) = inr (status, message, refl)

module _ (c : Conditions) (dir : Directory) (actor : String) where
  -- The caller may act on the attempt: the registration of the attempt and its competition exist, and
  -- some membership of the caller in the organization of the location of the competition, whatever
  -- location it is for, is at least a setter's.
  pub record IsAuthorised (att : Attempt) (comp : Competition) : Type 0 where
    pub reg : Registration
    pub registered : find_registration att.registration_id dir.registrations ≡ some reg
    pub held : find_competition reg.competition_id dir.competitions ≡ some comp
    pub signed_in : str_eq actor "" ≡ false
    pub is_setter :
        any
          (λ m. has_any_role m.role (role_setter ∷ []))
          (location_rows actor comp.location_id dir.memberships)
        ≡ true

  load_comp-loaded :
      (id : String) (comp : Competition)
      → load_comp c dir id ≡ loaded comp
      → find_competition id dir.competitions ≡ some comp
  unfolding load_comp
  load_comp-loaded id comp e = elim (Bool-cases c.competition_fails) [
    | inl f ↦ absurd (ground (arith, e, f))
    | inr f ↦ elim (Option-cases (find_competition id dir.competitions)) [
      | inl n ↦ absurd (ground (arith, e, f, n))
      | inr (x, n) ↦ ground (arith, e, f, n)
    ]
  ]

  require_comp_role-loaded :
      (comp : Competition) (roles : List String) (u : Unit {0})
      → require_comp_role c dir actor comp roles ≡ loaded u
      → (str_eq actor "" ≡ false)
        × (any
              (λ m. has_any_role m.role roles)
              (location_rows actor comp.location_id dir.memberships)
            ≡ true)
  unfolding require_comp_role
  require_comp_role-loaded comp roles u e = elim (Bool-cases (str_eq actor "")) [
    | inl f ↦ absurd (ground (arith, e, f))
    | inr f ↦
        elim (Option-cases
          (lookup_location_membership c.membership_fails actor comp.location_id dir.memberships)) [
            | inl n ↦ absurd (ground (arith, e, f, n))
            | inr (m, n) ↦ (
              f,
              query_highest-any c.membership_fails roles
                  (location_rows actor comp.location_id dir.memberships) m n
                  (ground (arith, e, f, n)),
            )
          ]
  ]

module _ {B U : Type 0} (parse_uuid : String → Option U) (nil_uuid : U) (c : Conditions)
    (dir : Directory) (actor attempt_id : String) (w : World B) where
  load_comp_for_staff-loaded :
      (a att : Attempt) (comp : Competition)
      → load_comp_for_staff parse_uuid nil_uuid c dir actor attempt_id w role_setter a
        ≡ loaded (att, comp)
      → (a ≡ att) × IsAuthorised c dir actor a comp
  load_comp_for_staff-loaded a att comp e = elim (Bool-cases c.registration_fails) [
    | inl f ↦ absurd (ground (arith, e, f))
    | inr f ↦ elim (Option-cases (find_registration a.registration_id dir.registrations)) [
      | inl n ↦ absurd (ground (arith, e, f, n))
      | inr (reg, n) ↦ elim (Loaded-cases (load_comp c dir reg.competition_id)) [
        | inr (s, m, k) ↦ absurd (ground (arith, e, f, n, k))
        | inl (x, k) ↦ elim (Loaded-cases (require_comp_role c dir actor x (role_setter ∷ []))) [
          | inr (s, m, l) ↦ absurd (ground (arith, e, f, n, k, l))
          | inl (u, l) ↦
              let same : x ≡ comp = ground (arith, e, f, n, k, l) in
              let (signed, setter) =
                require_comp_role-loaded c dir actor x (role_setter ∷ []) u l in
              (
                ground (arith, e, f, n, k, l),
                subst (IsAuthorised c dir actor a) same (record {
                  reg = reg;
                  registered = n;
                  held = load_comp-loaded c dir actor reg.competition_id x k;
                  signed_in = signed;
                  is_setter = setter;
                }),
              )
        ]
      ]
    ]
  ]

  pub load_attempt_for_staff-loaded :
      (att : Attempt) (comp : Competition)
      → load_attempt_for_staff parse_uuid nil_uuid c dir actor attempt_id w role_setter
        ≡ loaded (att, comp)
      → (get_by_id attempt_id w.db ≡ ok att) × IsAuthorised c dir actor att comp
  unfolding load_attempt_for_staff
  load_attempt_for_staff-loaded att comp e =
      elim (Bool-cases (is_uuid parse_uuid nil_uuid c dir actor attempt_id w attempt_id)) [
        | inr f ↦ absurd (ground (arith, e, f))
        | inl f ↦ elim (Bool-cases c.attempt_fails) [
          | inl g ↦ absurd (ground (arith, e, f, g))
          | inr g ↦ elim (Result-cases (get_by_id attempt_id w.db)) [
            | inr (attempt_not_found, n) ↦ absurd (ground (arith, e, f, g, n))
            | inr (x, n) ↦ absurd (ground (arith, e, f, g, n))
            | inl (a, n) ↦
                let (same, allowed) =
                  load_comp_for_staff-loaded a att comp (ground (arith, e, f, g, n)) in
                (n ∙ ap ok same, subst (λ x. IsAuthorised c dir actor x comp) same allowed)
          ]
        ]
      ]

  -- A refusal: nothing is written, dropped from the cache or announced, and the answer is an error.
  pub record IsRefused (h : Handled B U) : Type 0 where
    pub same_world : h.world ≡ w
    pub silent : h.is_announced ≡ false
    pub status : ℕ
    pub message : String
    pub answered : h.answer ≡ error status message

  -- An override that was carried out.
  pub record IsOverridden (body : Option AttemptOverride) (h : Handled B U) : Type 0 where
    pub att : Attempt
    pub comp : Competition
    pub given : AttemptOverride
    pub decoded : body ≡ some given
    pub found : get_by_id attempt_id w.db ≡ ok att
    pub authorised : IsAuthorised c dir actor att comp
    pub attempts_count : neg_part given.attempts ≡ 0
    pub zone_count : has_negative_zone parse_uuid nil_uuid c dir actor attempt_id w given ≡ false
    pub write :
        IsApplied
          (override_input parse_uuid nil_uuid c dir actor attempt_id w att given)
          c.now
          w.db
          (apply_action c.tx c.fresh_id c.now
            (override_input parse_uuid nil_uuid c dir actor attempt_id w att given)
            w.db)
    pub tables :
        h.world.db
        ≡ (apply_action c.tx c.fresh_id c.now
            (override_input parse_uuid nil_uuid c dir actor attempt_id w att given)
            w.db).0
    pub busted : h.world.cache ≡ invalidate comp.id w.cache
    pub announced : h.is_announced ≡ true
    pub answered :
        h.answer
        ≡ ok_attempt
            (attempt_to_api parse_uuid nil_uuid c dir actor attempt_id w write.returned_row)

  pub refused :
      (status : ℕ) (message : String)
      → IsRefused (rejected_with parse_uuid nil_uuid c dir actor attempt_id w status message)
  refused status message = record {
    same_world = refl;
    silent = refl;
    status = status;
    message = message;
    answered = refl;
  }
