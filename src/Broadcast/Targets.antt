-- ===== src/Broadcast/Targets.antt =====
-- Who a broadcast goes to, and how a job is made and queued: `_segment_condition`,
-- `materialize_targets`, `create_broadcast`, `queue_broadcast` and `broadcast_progress` of
-- src/functions/broadcast_worker.py. The audience is what `target_json` says.
pub mod Inserts
pub mod Chosen
use vakant.Prelude.{
  ℕ, ◌+◌, ◌-◌, ◌*◌, Bool, true, false, not, ◌&&◌, Option, none, some, List, [], ◌∷◌, leb, ◌==◌, any,
  keep, length, if◌then◌else◌, or_default, is_none, max,
}
use vakant.Prelude.Text.{Text, text_eq}
use vakant.Broadcast.{
  Status, draft, queued, Content, Segment, everyone, pro, free, test_admins, lang, region,
  active_days, Audience, Job, Progress, is_pending, is_sending, is_sent, is_failed, is_blocked,
  Target, Recipient, Queue, job_row, update_job, target_row,
}

abbrev pub is_number : ℕ → Option ℕ → Bool
is_number n o = or_default 0 o == n

abbrev pub is_text : Text → Option Text → Bool
is_text s none = false
is_text s (some t) = text_eq t s

-- `COALESCE(u.last_seen_at, u.date, 0)`
abbrev pub seen_at : Recipient → ℕ
seen_at u = elim u.last_seen_at [ none ↦ or_default 0 u.date | some seen ↦ seen ]

-- `_segment_condition`, at the time `now`
unfoldable pub in_segment : ℕ → List ℕ → Segment → Recipient → Bool
in_segment now admin_ids everyone u = true
in_segment now admin_ids pro u = is_number 1 u.user_pro
in_segment now admin_ids free u = is_number 0 u.user_pro
in_segment now admin_ids test_admins u = any (λ a. a == u.user_id) admin_ids
in_segment now admin_ids (lang code) u = is_text code u.lang
in_segment now admin_ids (region code) u = is_text code u.region
in_segment now admin_ids (active_days days) u = leb (now - max 1 days * 86_400) (seen_at u)

-- The condition of `materialize_targets`: banned users never, blocked ones unless asked for.
unfoldable pub is_recipient : ℕ → List ℕ → Audience → Recipient → Bool
is_recipient now admin_ids audience u =
    in_segment now admin_ids audience.segment u
    && (if audience.exclude_blocked then is_number 0 u.blocked else true)
    && is_number 0 u.banned

abbrev pub new_target : ℕ → ℕ → Target
new_target b k = record {
  broadcast_id = b;
  user_id = k;
  status = is_pending;
  error = none;
  error_kind = none;
  attempts = 0;
  next_attempt_at = none;
  sent_at = none;
  claimed_at = none;
  last_attempt_at = none;
}

-- `INSERT OR IGNORE`
abbrev pub insert_target : ℕ → ℕ → List Target → List Target
insert_target b k ts = elim (target_row b k ts) [ none ↦ new_target b k ∷ ts | some t ↦ ts ]

-- `INSERT OR IGNORE ... SELECT`
unfoldable pub insert_targets : ℕ → List Recipient → List Target → List Target
insert_targets b [] ts = ts
insert_targets b (u ∷ us) ts = insert_targets b us (insert_target b u.user_id ts)

-- `SELECT COUNT(*) ... WHERE broadcast_id = ?`
abbrev pub targets_of : ℕ → List Target → ℕ
targets_of b [] = 0
targets_of b (t ∷ ts) = (if t.broadcast_id == b then 1 else 0) + targets_of b ts

-- `materialize_targets`
unfoldable pub materialize_targets : ℕ → List ℕ → ℕ → Audience → Queue → ℕ × Queue
materialize_targets now admin_ids b audience q =
    let ts = insert_targets b (keep (is_recipient now admin_ids audience) q.users) q.targets in
    (targets_of b ts, record q { targets = ts })

-- The arguments of `create_broadcast`.
pub record Draft : Type 0 where
  pub actor_id : ℕ
  pub kind : Content
  pub text : Option Text
  pub media_path : Option Text
  pub target : Audience

abbrev pub new_job : ℕ → ℕ → Draft → Job
new_job now b x = record {
  id = b;
  actor_id = x.actor_id;
  status = draft;
  kind = x.kind;
  text = x.text;
  media_path = x.media_path;
  media_file_id = none;
  target = x.target;
  total = 0;
  sent = 0;
  failed = 0;
  blocked = 0;
  content_failed = 0;
  error = none;
  created_at = now;
  started_at = none;
  finished_at = none;
}

-- `create_broadcast`, as a draft
abbrev pub create_broadcast : ℕ → Draft → Queue → ℕ × Queue
create_broadcast now x q = (
  q.job_seq + 1,
  record q { jobs = new_job now (q.job_seq + 1) x ∷ q.jobs; job_seq = q.job_seq + 1 },
)

abbrev pub any_job : Job → Bool
any_job j = true

-- `queue_broadcast`; none where it raises LookupError
unfoldable pub queue_broadcast : ℕ → List ℕ → ℕ → Queue → Option (ℕ × Queue)
unfolding materialize_targets
queue_broadcast now admin_ids b q = elim (job_row b q.jobs) [
  | none ↦ none
  | some j ↦
      let (total, q') = materialize_targets now admin_ids b j.target q in
      some (
        total,
        record q' {
          jobs =
              update_job b any_job (λ x. record x { status = queued; total = total; error = none })
                q'.jobs;
        },
      )
]

-- `broadcast_progress`: the counters, and their sum `done`
pub broadcast_progress : ℕ → Queue → Option (Job × ℕ)
broadcast_progress b q = elim (job_row b q.jobs) [
  | none ↦ none
  | some j ↦ some (j, j.sent + j.failed + j.blocked)
]
