-- ===== src/History/Logs.antt =====
-- The audit log only grows: no entry is changed, moved or removed.
use delta_uptime.Prelude.{ℕ, none, ◌≡◌, sym, List, [], ◌∷◌, ◌++◌, ◌⊎◌, inl, inr, arith}
use mathlib.Core.List.{append_assoc, append-nil}
use delta_uptime.Database.{Db, AuditLog}
use delta_uptime.Database.Controls.{AuditParams, create_audit_log, new_log}
use delta_uptime.Effects.Keeps.{Keeps}
use delta_uptime.Effects.{World}
use delta_uptime.Service.{Env, Service}
use delta_uptime.Service.Stable.{Stable}
use delta_uptime.Server.{Reach}
use delta_uptime.History.Reach.{Reach-Holds}
use delta_uptime.History.Tables.{Stable_of_logs}

-- `logs` starts with the entries `old`.
abbrev pub Extends : List AuditLog → List AuditLog → Type 0
Extends old logs = (more : List AuditLog) × (logs ≡ old ++ more)

grown-Extends :
    (old logs : List AuditLog) (log : AuditLog) → Extends old logs → Extends old (logs ++ log ∷ [])
grown-Extends old logs log (more, e) = (more ++ log ∷ [], rw e (append_assoc old more (log ∷ [])))

create_audit_log-cases :
    (arg : AuditParams) (now : ℕ) (d : Db)
    → ((create_audit_log arg now d).1.audit_logs ≡ d.audit_logs)
      ⊎ ((create_audit_log arg now d).1.audit_logs ≡ d.audit_logs ++ new_log arg now d.next_id ∷ [])
unfolding create_audit_log
create_audit_log-cases arg now d = ground arith

create_audit_log-Extends :
    (old : List AuditLog) (arg : AuditParams)
    → Keeps (λ d. Extends old d.audit_logs) (create_audit_log arg)
create_audit_log-Extends old arg = record {
  at = λ now d h. elim (create_audit_log-cases arg now d) [
    | inl same ↦ rw same h
    | inr grown ↦ rw grown (grown-Extends old d.audit_logs (new_log arg now d.next_id) h)
  ];
}

pub Extends-Stable : (old : List AuditLog) → Stable (λ d. Extends old d.audit_logs)
Extends-Stable old = Stable_of_logs (Extends old) (create_audit_log-Extends old)

module _ (env : Env) (s : Service) where
  -- The audit log is append-only: in every state that the server reaches from one without an open
  -- transaction, it starts with the entries that it had, unchanged and in their order.
  pub Reach-Extends :
      {w v : World} → Reach env s w v → w.tx ≡ none → Extends w.db.audit_logs v.db.audit_logs
  Reach-Extends {w} run closed =
      (Reach-Holds env s (Extends-Stable w.db.audit_logs) run
        (([], sym (append-nil w.db.audit_logs)), rw closed tt)).0
