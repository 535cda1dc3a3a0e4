-- ===== src/Config/Opening.antt =====
-- `config_init` (config.c) with what the system answers, and the reading of what it gives.
use ostrichserver.Base.{
  ℕ, ◌-◌, Bool, List, ◌++◌, Option, none, some, if◌then◌else◌, length, take, drop,
}
use ostrichserver.Dict.Interface.{RwLock}
use ostrichserver.Dict.Ops.{Run}
use ostrichserver.Config.Records.{FileEnd, Config, config_parse_file}

-- What the system answers: whether `open` gives a descriptor, `st_size`, the bytes that are in the block of
-- `os_malloc` before, and what `read` writes there; `none` is -1. The block is taken to be given.
pub record Answers : Type 0 where
  pub opened : Bool
  pub filesize : ℕ
  pub block : List ℕ
  pub reads : Option (List ℕ)

-- the block behind `read`, up to the NUL at `filesize`
abbrev pub filled : ℕ → List ℕ → Option (List ℕ) → Option (List ℕ)
filled filesize block none = none
filled filesize block (some got) =
    some (got ++ take (filesize - length got) (drop (length got) block))

-- `config_init`; `none` is a negative result
unfoldable pub config_init : Answers → Option (List ℕ)
config_init a = if a.opened then filled a.filesize a.block a.reads else none

module _ {Float : Type 0} (atof : List ℕ → Float) (l : RwLock) where
  -- `config_parse_file`, with what the system answers to `config_init`
  unfoldable pub config_load : Answers → Run (Config atof l × FileEnd)
  unfolding config_init config_parse_file
  config_load a = config_parse_file atof l (config_init a)
