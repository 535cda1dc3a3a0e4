-- ===== src/Dict/Interface.antt =====
-- What a dictionary takes from outside: the functions of its `dict_type`, and the read-write lock of
-- pthreads.
use ostrichserver.Base.{ℕ, Bool, Option, none, some, ◌≡◌}

-- `dict_type`. `cmp k1 k2` is whether `dict_cmp_key` gives a number other than 0; a `key_dup` or
-- `val_dup` that is NULL is the identity. The functions that free a key or a value are called on
-- nothing that a dictionary still holds.
pub record DictType (K V : Type 0) : Type 0 where
  pub hash : K → ℕ
  pub key_dup : K → K
  pub val_dup : V → V
  pub cmp : K → K → Bool

-- `pthread_rwlock_t` as one thread uses it. A call that returns `none` waits for ever: no other thread
-- is there to release the lock.
pub record RwLock : Type 1 where
  pub Lock : Type 0
  pub unlocked : Lock
  pub rdlock : Lock → Option Lock
  pub wrlock : Lock → Option Lock
  pub unlock : Lock → Lock
  pub read_locked : Lock
  pub write_locked : Lock
  pub rdlock_free : rdlock unlocked ≡ some read_locked
  pub wrlock_free : wrlock unlocked ≡ some write_locked
  pub unlock_read : unlock read_locked ≡ unlocked
  pub unlock_write : unlock write_locked ≡ unlocked
  pub wrlock_read : wrlock read_locked ≡ none
  pub rdlock_write : rdlock write_locked ≡ none
  pub wrlock_write : wrlock write_locked ≡ none
