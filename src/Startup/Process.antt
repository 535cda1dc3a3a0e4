-- ===== src/Startup/Process.antt =====
-- The title of a whole process: `proctitle_setting` (main.c).
use ostrichserver.Base.{ℕ, ◌+◌, ◌<◌, ◌≤◌, List, [], ◌∷◌, ◌++◌, Option, ◌≡◌, ◌⊎◌, get_or}
use ostrichserver.Startup.Title.{Memory, Text, os_init_proctitle, full_title, proctitle_setting}

abbrev pub contents : List Text → List (List ℕ)
contents [] = []
contents (t ∷ ts) = t.content ∷ contents ts

-- `proctitle_setting`, where `beyond` is what `strncpy` finds behind the block of the title
unfoldable pub main_proctitle_setting : ℕ → List Text → List Text → List ℕ → Memory → Option Memory
unfolding os_init_proctitle full_title proctitle_setting
main_proctitle_setting first argv environ beyond mem =
    proctitle_setting first (os_init_proctitle first argv environ).0
      (full_title (contents argv) ++ beyond) mem

-- The memory of a process with a title.
pub record Shows (first last : ℕ) (title : List ℕ) (mem mem' : Memory) : Type 0 where
  pub around : (a : ℕ) → (a < first) ⊎ (last ≤ a) → mem' a ≡ mem a
  pub reads : (i : ℕ) → first + i < last → mem' (first + i) ≡ get_or title i 0
