-- ===== src/Staff/Override.antt =====
-- OverrideAttempt (internal/handler/comp_verify.go) on every branch.
use mathlib.Core.Path.{subst}
use routewerk.Prelude.{
  ◌≡◌, refl, sym, ap, ◌⊎◌, inl, inr, String, false, Option, none, some, arith, Bool-cases,
}
use routewerk.Prelude.Int.{pos, ltb_ℤ}
use routewerk.Attempts.Types.{Attempt, AttemptLog, Db, Result, ok, ApplyActionInput}
use routewerk.Attempts.Store.{get_by_id, apply_action}
use routewerk.Attempts.Transaction.{IsApplied, IsRolledBack, apply_action-atomic}
use routewerk.Rbac.Matrix.{role_setter}
use routewerk.Leaderboard.Types.{Competition}
use routewerk.Staff.Endpoints.{
  AttemptOverride, Directory, Conditions, World, Handled, load_attempt_for_staff, override_input,
  has_negative_zone, after_write, override_loaded, override_attempt,
}
use routewerk.Staff.Cases.{
  Loaded-cases, IsAuthorised, IsRefused, refused, IsOverridden, load_attempt_for_staff-loaded,
}

module _ {B U : Type 0} (parse_uuid : String → Option U) (nil_uuid : U) (c : Conditions)
    (dir : Directory) (actor attempt_id : String) (w : World B) where
  abbrev input : Attempt → AttemptOverride → ApplyActionInput
  input att given = override_input parse_uuid nil_uuid c dir actor attempt_id w att given

  abbrev write_of : Attempt → AttemptOverride → Db × Result (Attempt × AttemptLog)
  write_of att given = apply_action c.tx c.fresh_id c.now (input att given) w.db

  abbrev finish : Competition → Db × Result (Attempt × AttemptLog) → Handled B U
  finish comp r = after_write parse_uuid nil_uuid c dir actor attempt_id w comp r

  finish-IsRefused :
      (comp : Competition) (r : Db × Result (Attempt × AttemptLog))
      → IsRolledBack w.db r
      → IsRefused parse_uuid nil_uuid c dir actor attempt_id w (finish comp r)
  finish-IsRefused comp r (e, h) =
      subst (λ x. IsRefused parse_uuid nil_uuid c dir actor attempt_id w (finish comp x)) (sym h)
        (record {
          same_world = refl;
          silent = refl;
          status = 500;
          message = "internal error";
          answered = refl;
        })

  module _ (att : Attempt) (comp : Competition) (given : AttemptOverride)
      (found : get_by_id attempt_id w.db ≡ ok att) (allowed : IsAuthorised c dir actor att comp)
      (n : ltb_ℤ given.attempts (pos 0) ≡ false)
      (z : has_negative_zone parse_uuid nil_uuid c dir actor attempt_id w given ≡ false) where
    finish-IsOverridden :
        IsApplied (input att given) c.now w.db (write_of att given)
        → IsOverridden parse_uuid nil_uuid c dir actor attempt_id w
            (some given)
            (finish comp (write_of att given))
    finish-IsOverridden h =
        let e : write_of att given
            ≡ ((write_of att given).0, ok (h.returned_row, h.returned_entry)) =
          ap (λ x. ((write_of att given).0, x)) h.succeeded in
        record {
          att = att;
          comp = comp;
          given = given;
          decoded = refl;
          found = found;
          authorised = allowed;
          attempts_count = ground (arith, n);
          zone_count = z;
          write = h;
          tables = ap (λ x. (finish comp x).world.db) e;
          busted = ap (λ x. (finish comp x).world.cache) e;
          announced = ap (λ x. (finish comp x).is_announced) e;
          answered = ap (λ x. (finish comp x).answer) e;
        }

  override_loaded-cases :
      (att : Attempt) (comp : Competition) (body : Option AttemptOverride)
      → get_by_id attempt_id w.db ≡ ok att
      → IsAuthorised c dir actor att comp
      → let h = override_loaded parse_uuid nil_uuid c dir actor attempt_id w att comp body in
        IsRefused parse_uuid nil_uuid c dir actor attempt_id w h
        ⊎ IsOverridden parse_uuid nil_uuid c dir actor attempt_id w body h
  unfolding override_loaded
  override_loaded-cases att comp none found allowed =
      inl (refused parse_uuid nil_uuid c dir actor attempt_id w 400 "invalid request body")
  override_loaded-cases att comp (some given) found allowed =
      elim (Bool-cases (ltb_ℤ given.attempts (pos 0))) [
        | inl n ↦
            rw (n, override_loaded)
              (inl
                (refused parse_uuid nil_uuid c dir actor attempt_id w 400 "attempts must be >= 0"))
        | inr n ↦
            elim (Bool-cases
              (has_negative_zone parse_uuid nil_uuid c dir actor attempt_id w given)) [
                | inl z ↦
                    rw (n, z, override_loaded)
                      (inl (
                        refused parse_uuid nil_uuid c dir actor attempt_id w 400
                          "zone_attempts must be >= 0"))
                | inr z ↦
                    rw (n, z, override_loaded)
                      (elim (apply_action-atomic c.tx c.fresh_id c.now (input att given) w.db) [
                        | inl k ↦ inl (finish-IsRefused comp (write_of att given) k)
                        | inr k ↦ inr (finish-IsOverridden att comp given found allowed n z k)
                      ])
              ]
      ]

  pub override_attempt-cases :
      (body : Option AttemptOverride)
      → let h = override_attempt parse_uuid nil_uuid c dir actor attempt_id w body in
        IsRefused parse_uuid nil_uuid c dir actor attempt_id w h
        ⊎ IsOverridden parse_uuid nil_uuid c dir actor attempt_id w body h
  unfolding override_attempt
  override_attempt-cases body =
      elim (Loaded-cases
        (load_attempt_for_staff parse_uuid nil_uuid c dir actor attempt_id w role_setter)) [
          | inr (status, message, e) ↦
              rw (e, override_attempt)
                (inl (refused parse_uuid nil_uuid c dir actor attempt_id w status message))
          | inl ((att, comp), e) ↦
              let (found, allowed) =
                load_attempt_for_staff-loaded parse_uuid nil_uuid c dir actor attempt_id w att comp
                  e in
              rw (e, override_attempt) (override_loaded-cases att comp body found allowed)
        ]
