-- ===== src/Service/Steps.antt =====
-- The audit entry as a step of a method that returned.
use delta_uptime.Prelude.{◌≡◌, some}
use delta_uptime.Errors.{ok, wrap}
use delta_uptime.Database.{Db, AuditLog}
use delta_uptime.Database.Controls.{AuditParams, create_audit_log}
use delta_uptime.Effects.{World, App, pure, ◌>>◌, called, in_tx}
use delta_uptime.Effects.Inversion.{bind-ok, pure-ok}
use delta_uptime.Effects.Steps.{tx_step, open_tx_step}
use delta_uptime.Service.Session.{audit}

module _ {B : Type 0} (k : App B) (w : World) {b : B} {w' : World} where
  pub audit_step :
      (entry : AuditParams) (d : Db)
      → w.tx ≡ some d
      → (audit in_tx entry >> k) w ≡ (ok b, w')
      → (log : AuditLog) × (d' : Db) × (create_audit_log entry w.now d ≡ (ok log, d'))
        × (k (record (called w) { tx = some d' }) ≡ (ok b, w'))
  unfolding audit
  audit_step entry d opened e =
      let (u, v, e1, rest) = bind-ok (audit in_tx entry) (λ _. k) w e in
      let (log, d', ran, last) =
        tx_step (λ _. pure tt) w (create_audit_log entry) (wrap "create audit log") d opened e1 in
      let (_, v-is) = pure-ok tt _ last in (log, d', ran, rw v-is at rest)

  -- The same where the working copy is not known yet.
  pub open_audit_step :
      (entry : AuditParams)
      → (audit in_tx entry >> k) w ≡ (ok b, w')
      → (log : AuditLog) × (d d' : Db) × (w.tx ≡ some d)
        × (create_audit_log entry w.now d ≡ (ok log, d'))
        × (k (record (called w) { tx = some d' }) ≡ (ok b, w'))
  unfolding audit
  open_audit_step entry e =
      let (u, v, e1, rest) = bind-ok (audit in_tx entry) (λ _. k) w e in
      let (log, d, d', opened, ran, last) =
        open_tx_step (λ _. pure tt) w (create_audit_log entry) (wrap "create audit log") e1 in
      let (_, v-is) = pure-ok tt _ last in (log, d, d', opened, ran, rw v-is at rest)
