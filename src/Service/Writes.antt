-- ===== src/Service/Writes.antt =====
-- The rows that the handlers add to the audit log and to the notifications.
use wassal.Prelude.{ℕ, Option, Bool, false, ◌||◌, List, [], ◌∷◌, ◌is◌, if◌then◌else◌}
use wassal.Store.{AuditLog, AuditAction, DeduplicationKey, deduplication_key_enum, Notification}

-- The row that `writeAudit` of apps/api/src/infrastructure/audit.ts adds.
abbrev pub audit : Option ℕ → AuditAction → ℕ → AuditLog
audit actor_id action entity_id = record {
  actor_id = actor_id;
  action = action;
  entity_id = entity_id;
}

is_notified : DeduplicationKey → List Notification → Bool
is_notified key [] = false
is_notified key (n ∷ ns) = n.deduplication_key is key || is_notified key ns

-- `notification.upsert({ where: { deduplicationKey }, update: {}, create })`: the key is unique.
unfoldable pub upsert_notification : Notification → List Notification → List Notification
unfolding is_notified
upsert_notification n ns = if is_notified n.deduplication_key ns then ns else n ∷ ns

-- The loop over the recipients.
unfoldable pub notify_all : (ℕ → DeduplicationKey) → List ℕ → List Notification → List Notification
unfolding upsert_notification
notify_all key [] ns = ns
notify_all key (user ∷ users) ns =
    notify_all key users
      (upsert_notification (record { recipient_user_id = user; deduplication_key = key user }) ns)
