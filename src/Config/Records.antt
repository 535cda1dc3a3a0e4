-- ===== src/Config/Records.antt =====
-- The records of a configuration file (config.c). `atof` is a parameter, and so is the lock of the
-- dictionary. Allocation is taken to succeed, as the code takes it to.
use ostrichserver.Base.{
  ℕ, zero, suc, ◌-◌, ◌^◌, ◌%◌, ◌+◌, Bool, true, false, ◌&&◌, List, [], ◌∷◌, Option, none, some,
  ◌==◌, if◌then◌else◌, length, bytes,
}
use ostrichserver.OsString.Number.{os_atoi}
use ostrichserver.Dict.Interface.{DictType, RwLock}
use ostrichserver.Dict.Ops.{Run, fault, returns, ◌>>=◌, Dict, dict_create, dict_add, dict_find}
use ostrichserver.Dict.Hashes.{dict_casestring_key, dict_string_key_compare}
use ostrichserver.Config.Tokens.{newline, blanks, behind, before, after, strtok, next_line}

-- `strcmp` with 0
unfoldable pub same_string : List ℕ → List ℕ → Bool
same_string [] [] = true
same_string [] (y ∷ ys) = false
same_string (x ∷ xs) [] = false
same_string (x ∷ xs) (y ∷ ys) = (x == y) && same_string xs ys

-- `data` and `type` of a `record`; an int is its 32 bits.
pub data Value (Float : Type 0) : Type 0 where
  record_int : ℕ → Value Float
  record_string : List ℕ → Value Float
  record_float : Float → Value Float

-- `record`
pub record Record (Float : Type 0) : Type 0 where
  pub name : List ℕ
  pub value : Value Float

-- How `config_parse_file` ends: with `OS_ERR`, or at its end, where it returns no value. The last is that the
-- rounds were used up.
pub data FileEnd : Type 0 where
  os_err : FileEnd
  ended : FileEnd
  unfinished : FileEnd

-- the result of `os_atoi` as an int; `none` is -1
abbrev pub to_int : Option ℕ → ℕ
to_int none = 2 ^ 32 - 1
to_int (some v) = v % 2 ^ 32

-- `config_hash_key`
abbrev pub config_hash_key : List ℕ → ℕ
config_hash_key str = dict_casestring_key str

-- `config_httype`
abbrev pub config_httype : (Float : Type 0) → DictType (List ℕ) (Record Float)
config_httype Float = record {
  hash = config_hash_key;
  key_dup = λ k. k;
  val_dup = λ v. v;
  cmp = dict_string_key_compare;
}

module _ {Float : Type 0} (atof : List ℕ → Float) where
  abbrev pub made : List ℕ → Value Float → Run (Option (Record Float))
  made name v = returns (some (record { name = name; value = v }))

  -- the part of `record_make` behind the name; a `value` that is NULL is read
  unfoldable pub make_value : List ℕ → List ℕ → Option (List ℕ) → Run (Option (Record Float))
  unfolding same_string
  make_value name type none =
      if same_string type (bytes "STRING")
      then fault
      else if same_string type (bytes "INT")
      then fault
      else if same_string type (bytes "FLOAT")
      then fault
      else returns none
  make_value name type (some value) =
      if same_string type (bytes "STRING")
      then made name (record_string value)
      else if same_string type (bytes "INT")
      then made name (record_int (to_int (os_atoi value)))
      else if same_string type (bytes "FLOAT")
      then made name (record_float (atof value))
      else returns none

  -- `record_make`, where NULL is `none`; the record unless it gives `OS_ERR`
  unfoldable pub record_make :
      Option (List ℕ) → Option (List ℕ) → Option (List ℕ) → Run (Option (Record Float))
  unfolding make_value
  record_make none type value = fault
  record_make (some name) none value = fault
  record_make (some name) (some type) value = make_value name type value

  -- the first byte of a line
  abbrev pub is_comment : List ℕ → Bool
  is_comment [] = false
  is_comment (c ∷ line) = c == b'#'

  module _ (l : RwLock) where
    abbrev pub Config : Type 0
    Config = Dict l (config_httype Float)

    abbrev pub Result : Type 0
    Result = Run (Config × FileEnd)

    -- behind `dict_add`, whose result is not tested: more words in the line are an error
    abbrev pub after_add : (Config → Result) → List ℕ → Config → Result
    after_add rest [] d = rest d
    after_add rest (c ∷ nextblk) d = returns (d, os_err)

    -- behind `record_make`
    abbrev pub after_make : (Config → Result) → List ℕ → Config → Option (Record Float) → Result
    after_make rest nextblk d none = returns (d, os_err)
    after_make rest nextblk d (some rc) =
        dict_add l (config_httype Float) d rc.name rc >>= (λ r. after_add rest nextblk r.0)

    -- a line that is no comment; `rest` is the loop from the next line on
    unfoldable pub on_record : (Config → Result) → List ℕ → Config → Result
    unfolding record_make behind
    on_record rest line d =
        let name = strtok blanks line in
        let type = strtok blanks name.1 in
        let value = strtok blanks type.1 in
        record_make name.0 type.0 value.0 >>= after_make rest value.1 d

    -- a round on a line that is not empty, behind the loop that skips empty lines
    unfoldable pub on_line : (List ℕ → List ℕ → Config → Result) → List ℕ → List ℕ → Config → Result
    unfolding on_record next_line
    on_line loop line nextln d =
        let next = next_line nextln in
        elim (is_comment line) [
          | true ↦ loop next.0 next.1 d
          | false ↦ on_record (loop next.0 next.1) line d
        ]

    -- `while (*line != '\0')`
    unfoldable pub parse_lines : ℕ → List ℕ → List ℕ → Config → Result
    unfolding on_line
    parse_lines zero line nextln d = returns (d, unfinished)
    parse_lines (suc fuel) [] nextln d = returns (d, ended)
    parse_lines (suc fuel) (c ∷ line) nextln d =
        on_line (parse_lines fuel) (behind newline (c ∷ line)) nextln d

    -- the first line; `*line` is read where it is NULL
    abbrev pub from_line : ℕ → Option (List ℕ) × List ℕ → Config → Result
    from_line fuel (none, nextln) d = fault
    from_line fuel (some line, nextln) d = parse_lines fuel line nextln d

    -- `config_parse_file`; the bytes of the file, or `none` where `config_init` gives a negative number.
    -- Each round but the last takes a byte of the file.
    unfoldable pub config_parse_file : Option (List ℕ) → Result
    unfolding parse_lines before after
    config_parse_file none = returns (dict_create l (config_httype Float), os_err)
    config_parse_file (some file) =
        let pbuf = before (0 ∷ []) file in
        from_line (length pbuf + 2) (strtok newline pbuf) (dict_create l (config_httype Float))

    -- `get_config_record`
    unfoldable pub get_config_record : Config → List ℕ → Run (Config × Option (Record Float))
    unfolding dict_find
    get_config_record d str = dict_find l (config_httype Float) d str
