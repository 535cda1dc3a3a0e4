-- ===== src/Startup/Title.antt =====
-- The title of the process (main.c), written over the words and the environment of the process. Memory is
-- the byte at each address, a string of the process its address and its bytes before the NUL.
use ostrichserver.Base.{
  ℕ, zero, suc, ◌+◌, ◌-◌, List, [], ◌∷◌, ◌++◌, Option, none, some, ltb, ◌==◌, if◌then◌else◌, length,
  bytes,
}
use ostrichserver.AtomicList.System.{update}

abbrev pub Memory : Type 0
Memory = ℕ → ℕ

-- `strncpy` of `n` bytes, of a string that is given by its bytes before the NUL
unfoldable pub strncpy : Memory → ℕ → List ℕ → ℕ → Memory
strncpy mem p src zero = mem
strncpy mem p [] (suc n) = strncpy (update mem p 0) (p + 1) [] n
strncpy mem p (c ∷ src) (suc n) = strncpy (update mem p c) (p + 1) src n

-- `memset` with 0
unfoldable pub memset : Memory → ℕ → ℕ → Memory
memset mem p zero = mem
memset mem p (suc n) = memset (update mem p 0) (p + 1) n

abbrev pub head_text : List ℕ
head_text = bytes "ostrichserver: "

-- the end of `_proctitle_setting`, from `p` on, which is 8 bytes, the size of a pointer, behind the start
-- of the title
abbrev pub clear_rest : Memory → ℕ → ℕ → Option Memory
clear_rest mem p last =
    if p == last then some mem else if ltb last p then none else some (memset mem p (last - p))

-- `_proctitle_setting`, where `first` is `old_argv[0]` and `last` is `old_argv_last`. A length that is
-- negative is a `size_t` beyond the memory, and the call is `none`.
unfoldable pub proctitle_setting : ℕ → ℕ → List ℕ → Memory → Option Memory
unfolding strncpy memset
proctitle_setting first last title mem =
    if ltb last first
    then none
    else let named = strncpy mem first head_text (last - first) in
      let p = first + 15 in
      if ltb last p then none else clear_rest (strncpy named p title (last - p)) (p + 8) last

-- a string of `argv` or `environ`
pub record Text : Type 0 where
  pub address : ℕ
  pub content : List ℕ

-- the size that `os_init_proctitle` asks for
unfoldable pub environ_size : List Text → ℕ
environ_size [] = 0
environ_size (t ∷ ts) = length t.content + 1 + environ_size ts

-- the loop of `os_init_proctitle` over `old_argv`
unfoldable pub argv_end : List Text → ℕ → ℕ
argv_end [] last = last
argv_end (t ∷ ts) last =
    argv_end ts (if last == t.address then t.address + length t.content + 1 else last)

-- the loop over `environ`: `old_argv_last`, what is copied to the new block, and where each string stands
-- then: at an offset of the block, or where it was
pub data Stands : Type 0 where
  copied : ℕ → Stands
  stays : ℕ → Stands

unfoldable pub environ_end : List Text → ℕ → List ℕ → List Stands → ℕ × List ℕ × List Stands
environ_end [] last block moved = (last, block, moved)
environ_end (t ∷ ts) last block moved =
    let here =
      environ_end ts (t.address + length t.content + 1) (block ++ (t.content ++ 0 ∷ []))
        (moved ++ copied (length block) ∷ []) in
    let away = environ_end ts last block (moved ++ stays t.address ∷ []) in
    if last == t.address then here else away

-- `os_init_proctitle`
unfoldable pub os_init_proctitle : ℕ → List Text → List Text → ℕ × List ℕ × List Stands
unfolding argv_end environ_end
os_init_proctitle first argv environ =
    let r = environ_end environ (argv_end argv first) [] [] in (r.0 - 1, r.1, r.2)

-- the words that `proctitle_setting` puts behind `master_title`
unfoldable pub title_words : List (List ℕ) → List ℕ
title_words [] = []
title_words (a ∷ args) = b' ' ∷ (a ++ title_words args)

-- what `proctitle_setting` writes to its block, and the size of the block
unfoldable pub full_title : List (List ℕ) → List ℕ
unfolding title_words
full_title args = bytes "manager" ++ title_words args

unfoldable pub title_size : List (List ℕ) → ℕ
title_size [] = length (bytes "manager")
title_size (a ∷ args) = length a + 1 + title_size args
