-- ===== src/Store/Writer/Config.antt =====
-- src/ai_runtime/store/writer.py: `GroupCommitConfig`. Milliseconds are whole microseconds here.
use design_document.Base.{
  ℕ, zero, ◌≤◌, ◌≡◌, Bool, true, false, arith, leb, Result, ok, err, guard, ◌>>=◌, ◌>>◌,
}

pub data GroupCommitPolicy : Type 0 where
  immediate time_window : GroupCommitPolicy

abbrev pub is_time_window : GroupCommitPolicy → Bool
is_time_window immediate = false
is_time_window time_window = true

-- Integers: `negsuc n` is `-(n + 1)`.
pub data ℤ : Type 0 where
  pos : ℕ → ℤ
  negsuc : ℕ → ℤ

pub record GroupCommitConfig : Type 0 where
  pub policy : GroupCommitPolicy
  pub max_batch_size : ℕ
  pub window_us : ℕ
  pub max_queue_size : ℕ
  pub enqueue_timeout_us : ℕ

-- The constructor's arguments.
pub record Arguments : Type 0 where
  pub policy : GroupCommitPolicy
  pub max_batch_size : ℤ
  pub window_us : ℤ
  pub max_queue_size : ℤ
  pub enqueue_timeout_us : ℤ

pub data ConfigError : Type 0 where
  bad_batch_size bad_window bad_queue_size bad_timeout : ConfigError

positive : ℤ → ConfigError → Result ConfigError ℕ
positive (pos zero) x = err x
positive (pos n) x = ok n
positive (negsuc n) x = err x

natural : ℤ → ConfigError → Result ConfigError ℕ
natural (pos n) x = ok n
natural (negsuc n) x = err x

batch_size : GroupCommitPolicy → ℕ → ℕ
batch_size immediate n = 1
batch_size time_window n = n

window_end : ℕ → Result ConfigError ℕ
window_end n = guard (leb n 1000000) bad_window >> ok n

-- `__post_init__`
unfoldable pub validated : Arguments → Result ConfigError GroupCommitConfig
unfolding positive natural window_end batch_size
validated a = do
  batch ← positive a.max_batch_size bad_batch_size
  window ← natural a.window_us bad_window >>= window_end
  queue ← positive a.max_queue_size bad_queue_size
  timeout ← natural a.enqueue_timeout_us bad_timeout
  ok (record {
    policy = a.policy;
    max_batch_size = batch_size a.policy batch;
    window_us = window;
    max_queue_size = queue;
    enqueue_timeout_us = timeout;
  })

pub record IsUsable (c : GroupCommitConfig) : Type 0 where
  pub batches : 1 ≤ c.max_batch_size
  pub queues : 1 ≤ c.max_queue_size
  pub waits : c.window_us ≤ 1000000
  pub alone : c.policy ≡ immediate → c.max_batch_size ≡ 1

pub validated-IsUsable : (a : Arguments) (c : GroupCommitConfig) → validated a ≡ ok c → IsUsable c
unfolding validated positive natural window_end batch_size
validated-IsUsable a c e = ground arith
