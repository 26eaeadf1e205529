-- ===== src/Staff/Reverted.antt =====
-- What a climber's undo (internal/handler/comp_action.go) does to an override of staff
-- (internal/handler/comp_verify.go).
use mathlib.Core.Path.{subst}
use routewerk.Prelude.{◌≡◌, sym, ◌∙◌, String, true, false, Option}
use routewerk.Attempts.Types.{Db}
use routewerk.Attempts.Store.{key_taken, fits_columns}
use routewerk.Attempts.Rows.{IsClocked}
use routewerk.Attempts.Transaction.{Changes}
use routewerk.Attempts.Action.{ActionItem, undo, Conditions as ActionConditions, apply_one}
use routewerk.Attempts.Apply.{state_in, is_fresh, IsClean, apply_one-clean}
use routewerk.Attempts.Undo.{latest-Changes, undo-new_state, changes_of, state_in-Changes}
use routewerk.Staff.Endpoints.{
  AttemptOverride, Directory, Conditions, World, override_attempt, override_input,
}
use routewerk.Staff.Cases.{IsOverridden}

module _ {B U : Type 0} (parse_uuid : String → Option U) (nil_uuid : U) (c : Conditions)
    (dir : Directory) (actor attempt_id : String) (w : World B)
    (body : Option AttemptOverride) where
  -- An undo of the climber right after an override is applied and takes the attempt back to the state
  -- before the override, if the log lies behind the override, nothing fails, the key of the undo is new
  -- and the old state fits the columns.
  pub override_attempt-undo :
      let h = override_attempt parse_uuid nil_uuid c dir actor attempt_id w body in
      (o : IsOverridden parse_uuid nil_uuid c dir actor attempt_id w body h) (c' : ActionConditions)
      (climber : String) (u : ActionItem)
      → IsClocked c.now w.db
      → u.type ≡ undo
      → IsClean c'
      → key_taken u.idempotency_key h.world.db.log ≡ false
      → fits_columns o.att.state ≡ true
      → let r = apply_one c' o.att.registration_id climber o.att.problem_id u h.world.db in
        (is_fresh r.1 ≡ true) × (state_in o.att.registration_id o.att.problem_id r.0 ≡ o.att.state)
  override_attempt-undo o c' climber u k t clean free fits =
      let reg : String = o.att.registration_id in
      let prob : String = o.att.problem_id in
      let db' : Db =
        (override_attempt parse_uuid nil_uuid c dir actor attempt_id w body).world.db in
      let i = override_input parse_uuid nil_uuid c dir actor attempt_id w o.att o.given in
      let h : Changes i c.now w.db db' =
        subst (Changes i c.now w.db) (sym o.tables) o.write.changes in
      let n =
        undo-new_state c' u reg prob db' h.row h.entry o.att.state t clean.latest_works h.written
          (latest-Changes c.now w.db db' i h k) h.before_kept in
      let g = apply_one-clean c' reg climber prob u db' o.att.state n clean fits free in
      let j = changes_of c' reg climber prob u db' g in
      (g.fresh, state_in-Changes c'.now db' _ _ j ∙ cc (g.from_row, n))
