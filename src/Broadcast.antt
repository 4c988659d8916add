-- ===== src/Broadcast.antt =====
-- The broadcast queue, src/functions/broadcast_worker.py and broadcast_control.py: its two tables
-- (src/db/migrations/m008, m015, m017, m019) and the columns of `users` that it reads and writes.
--
-- A key is unique: a statement on one key touches the first row that has it. Times are unix
-- seconds. Each transaction of the worker is one function on the tables.
pub mod Outcome
pub mod Targets
pub mod Control
pub mod Batch
pub mod Worker
pub mod Picker
pub mod History
mod Tests
pub mod Rows
use vakant.Prelude.{
  ℕ, Bool, true, false, ◌&&◌, Option, none, some, List, [], ◌∷◌, ◌==◌, if◌then◌else◌,
}
use vakant.Prelude.Text.{Text}

-- `broadcasts.status`
pub data Status : Type 0 where
  draft queued running paused cancelled done rejected : Status

-- `broadcasts.kind`
pub data Content : Type 0 where
  text photo video document forward : Content

-- `SEGMENT_RE`, by what a match says
pub data Segment : Type 0 where
  everyone pro free test_admins : Segment
  lang region : Text → Segment
  active_days : ℕ → Segment

-- `broadcasts.target_json`
pub record Audience : Type 0 where
  pub segment : Segment
  pub exclude_blocked : Bool

-- A row of `broadcasts`. The buttons and the chat of a forward are left to the caller of Telegram.
pub record Job : Type 0 where
  pub id : ℕ
  pub actor_id : ℕ
  pub status : Status
  pub kind : Content
  pub text : Option Text
  pub media_path : Option Text
  pub media_file_id : Option Text
  pub target : Audience
  pub total : ℕ
  pub sent : ℕ
  pub failed : ℕ
  pub blocked : ℕ
  pub content_failed : ℕ
  pub error : Option Text
  pub created_at : ℕ
  pub started_at : Option ℕ
  pub finished_at : Option ℕ

-- `broadcast_targets.status`
pub data Progress : Type 0 where
  is_pending is_sending is_sent is_failed is_blocked : Progress

-- `ERROR_KINDS`
pub data ErrorKind : Type 0 where
  kind_blocked deactivated chat_not_found bad_request flood network other sent_unparsed : ErrorKind

-- A row of `broadcast_targets`.
pub record Target : Type 0 where
  pub broadcast_id : ℕ
  pub user_id : ℕ
  pub status : Progress
  pub error : Option Text
  pub error_kind : Option ErrorKind
  pub attempts : ℕ
  pub next_attempt_at : Option ℕ
  pub sent_at : Option ℕ
  pub claimed_at : Option ℕ
  pub last_attempt_at : Option ℕ

-- A row of `users`, the columns that the queue reads.
pub record Recipient : Type 0 where
  pub user_id : ℕ
  pub lang : Option Text
  pub region : Option Text
  pub user_pro : Option ℕ
  pub blocked : Option ℕ
  pub banned : Option ℕ
  pub last_seen_at : Option ℕ
  pub date : Option ℕ

-- The tables, with the AUTOINCREMENT counter of `broadcasts`.
pub record Queue : Type 0 where
  pub jobs : List Job
  pub job_seq : ℕ
  pub targets : List Target
  pub users : List Recipient

abbrev pub is_job : ℕ → Job → Bool
is_job b j = j.id == b

abbrev pub is_target : ℕ → ℕ → Target → Bool
is_target b k t = t.broadcast_id == b && t.user_id == k

-- `SELECT ... WHERE id = ?`
abbrev pub job_row : ℕ → List Job → Option Job
job_row b [] = none
job_row b (j ∷ js) = if j.id == b then some j else job_row b js

-- `UPDATE broadcasts SET ... WHERE id = ? AND test`
abbrev pub update_job : ℕ → (Job → Bool) → (Job → Job) → List Job → List Job
update_job b test f [] = []
update_job b test f (j ∷ js) =
    if j.id == b then (if test j then f j else j) ∷ js else j ∷ update_job b test f js

-- `SELECT ... WHERE broadcast_id = ? AND user_id = ?`
abbrev pub target_row : ℕ → ℕ → List Target → Option Target
target_row b k [] = none
target_row b k (t ∷ ts) = if is_target b k t then some t else target_row b k ts

-- `UPDATE broadcast_targets SET ... WHERE broadcast_id = ? AND user_id = ? AND test`
abbrev pub update_target : ℕ → ℕ → (Target → Bool) → (Target → Target) → List Target → List Target
update_target b k test f [] = []
update_target b k test f (t ∷ ts) =
    if is_target b k t then (if test t then f t else t) ∷ ts else t ∷ update_target b k test f ts
