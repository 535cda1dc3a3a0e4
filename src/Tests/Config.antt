-- ===== src/Tests/Config.antt =====
-- The configuration file: runs, and the theorem at concrete inputs.
use ostrichserver.Base.{ℕ, List, some, ◌≡◌, refl, bytes}
use ostrichserver.Dict.Ops.{fault, returns, ◌>>=◌, dict_add, dict_find}
use ostrichserver.Dict.Table.{
  add_entry, find_entry, place, index_in, blocked_by, expand_if_needed, dict_expand, doubling,
}
use ostrichserver.Dict.Hashes.{dict_casestring_key, dict_string_key_compare}
use ostrichserver.OsString.Number.{os_atoi}
use ostrichserver.Config.Tokens.{among}
use ostrichserver.Config.Records.{record_int, make_value, config_parse_file, get_config_record}
use ostrichserver.Config.RoundTrip.{Line}
use ostrichserver.Tests.Dict.{one_thread}

-- A number with a fraction stays as it is written.
abbrev as_written : List ℕ → List ℕ
as_written s = s

-- Unfolded to run the operations.
config_run : Unit {0}
unfolding config_parse_file get_config_record dict_add dict_find add_entry find_entry place index_in
    blocked_by expand_if_needed dict_expand doubling dict_casestring_key dict_string_key_compare
    os_atoi
config_run = tt

unfoldable port : Line as_written
unfolding config_run among make_value
port = record {
  name = record {
    head = b'a';
    tail = bytes "b";
    no_blank = (refl, (refl, tt));
    no_newline = (refl, (refl, tt));
    no_nul = (refl, (refl, tt));
  };
  type = record {
    head = b'I';
    tail = bytes "NT";
    no_blank = (refl, (refl, (refl, tt)));
    no_newline = (refl, (refl, (refl, tt)));
    no_nul = (refl, (refl, (refl, tt)));
  };
  value = record {
    head = b'8';
    tail = bytes "0";
    no_blank = (refl, (refl, tt));
    no_newline = (refl, (refl, tt));
    no_nul = (refl, (refl, tt));
  };
  made = record { name = bytes "ab"; value = record_int 80 };
  no_comment = refl;
  makes = refl;
}

-- Comments and empty lines are skipped, and the record is found.
found :
    (config_parse_file as_written one_thread (some (bytes "# x\n\nab INT 80\n"))
      >>= (λ r. get_config_record as_written one_thread r.0 (bytes "ab") >>= (λ g. returns g.1)))
    ≡ returns (some (record { name = bytes "ab"; value = record_int 80 }))
unfolding config_run
found = refl

-- An empty line at the end of a file is read as a line without words, through NULL.
empty_last_line : config_parse_file as_written one_thread (some (bytes "ab INT 80\n\n")) ≡ fault
unfolding config_run
empty_last_line = refl
