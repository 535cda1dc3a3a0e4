-- ===== src/Dict/Ops.antt =====
-- The operations of a dictionary with its lock. An operation returns the dictionary, lock included,
-- and its result.
use ostrichserver.Base.{ℕ, Bool, Option, none, some, ◌==◌, if◌then◌else◌}
use ostrichserver.Dict.Interface.{DictType, RwLock}
use ostrichserver.Dict.Table.{Tables, new_tables, add_entry, find_entry, assign_entry}

-- How a call ends: it waits for the lock for ever, it reads through a NULL pointer, or it returns.
pub data Run (A : Type 0) : Type 0 where
  waits : Run A
  fault : Run A
  returns : A → Run A

infixl 5 ◌>>=◌
abbrev pub ◌>>=◌ : {A B : Type 0} → Run A → (A → Run B) → Run B
waits >>= f = waits
fault >>= f = fault
returns a >>= f = f a

module _ (l : RwLock) {K V : Type 0} (t : DictType K V) where
  open l use {Lock, unlocked, rdlock, wrlock, unlock}

  pub record Dict : Type 0 where
    pub tables : Tables K V
    pub lock : Lock

  -- `dict_create`
  abbrev pub dict_create : Dict
  dict_create = record { tables = new_tables; lock = unlocked }

  abbrev pub locked : Option Lock → Run Lock
  locked none = waits
  locked (some k) = returns k

  -- `dict_add`; `true` is `OS_OK`
  unfoldable pub dict_add : Dict → K → V → Run (Dict × Bool)
  dict_add d k v = do
    held ← locked (wrlock d.lock)
    let (tables, added) = add_entry t d.tables k v
    returns (record { tables = tables; lock = unlock held }, added)

  -- `dict_find`, with the value of the entry that it returns. The first test returns with the lock
  -- held.
  unfoldable pub dict_find : Dict → K → Run (Dict × Option V)
  dict_find d k = do
    held ← locked (rdlock d.lock)
    if d.tables.ht0.size == 0
        then returns (record d { lock = held }, none)
        else returns (record d { lock = unlock held }, find_entry t d.tables k)

  -- `dict_replace` where `dict_add` gave `OS_ERR`: it writes through the entry found.
  unfoldable pub write_found : Dict → K → V → Option V → Run (Dict × ℕ)
  write_found d k v none = fault
  write_found d k v (some old) = returns (record d { tables = assign_entry t d.tables k v }, 0)

  unfoldable pub dict_replace : Dict → K → V → Run (Dict × ℕ)
  unfolding write_found
  dict_replace d k v = do
    (d', added) ← dict_add d k v
    if added then returns (d', 1) else dict_find d' k >>= (λ f. write_found f.0 k v f.1)
