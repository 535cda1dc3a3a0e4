-- ===== src/Startup/Writing.antt =====
-- What `_proctitle_setting` leaves in memory.
use ostrichserver.Base.{ℕ, ◌+◌, ◌-◌, ◌<◌, ◌≤◌, List, [], ◌++◌, ◌≡◌, ◌⊎◌, get_or, take}
use ostrichserver.Startup.Title.{Memory, strncpy, head_text}

-- An address outside of the `n` bytes at `p`.
abbrev pub Beside : ℕ → ℕ → ℕ → Type 0
Beside p n a = (a < p) ⊎ (p + n ≤ a)

module _ (first last : ℕ) (title : List ℕ) (mem : Memory) where
  abbrev named : Memory
  named = strncpy mem first head_text (last - first)

  abbrev titled : Memory
  titled = strncpy named (first + 15) title (last - (first + 15))

  abbrev written : Memory
  written = strncpy titled (first + 15 + 8) [] (last - (first + 15 + 8))

-- The title as it stands in the memory of the process: the name of the server, 8 bytes of the title at most,
-- and NUL up to the end; the memory around it is as it was.
pub record Titled (first last : ℕ) (title : List ℕ) (mem mem' : Memory) : Type 0 where
  pub around : (a : ℕ) → (a < first) ⊎ (last ≤ a) → mem' a ≡ mem a
  pub reads : (i : ℕ) → first + i < last → mem' (first + i) ≡ get_or (head_text ++ take 8 title) i 0
