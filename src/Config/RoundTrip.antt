-- ===== src/Config/RoundTrip.antt =====
-- Reading back a configuration file as it is written.
use ostrichserver.Base.{
  ℕ, zero, suc, ◌+◌, ◌<◌, ◌≤◌, false, List, [], ◌∷◌, ◌++◌, some, ◌≡◌, refl, ◌∙◌, ap, arith, ◌==◌,
  length, subst, length-append,
}
use ostrichserver.Dict.Interface.{RwLock}
use ostrichserver.Dict.Ops.{Run, returns, ◌>>=◌, dict_create, dict_add}
use ostrichserver.Config.Tokens.{among, behind, newline, blanks, next_line}
use ostrichserver.Config.Cutting.{
  Free, before-Free, after-Free, before-all, after-all, behind-head, delimiters-head, Free-append,
}
use ostrichserver.Config.Records.{
  Record, FileEnd, ended, config_httype, on_line, make_value, Config, on_record, parse_lines,
  config_parse_file,
}

-- A word: its first byte and the others, none of them a blank, a line feed or NUL.
pub record Word : Type 0 where
  pub head : ℕ
  pub tail : List ℕ
  pub no_blank : Free blanks (head ∷ tail)
  pub no_newline : Free newline (head ∷ tail)
  pub no_nul : Free (0 ∷ []) (head ∷ tail)

abbrev pub text : Word → List ℕ
text w = w.head ∷ w.tail

module _ {Float : Type 0} (atof : List ℕ → Float) where
  -- A line of three words that `record_make` makes into a record: the name does not begin a comment, and
  -- the type is one of the three.
  pub record Line : Type 0 where
    pub name : Word
    pub type : Word
    pub value : Word
    pub made : Record Float
    pub no_comment : (name.head == b'#') ≡ false
    pub makes : make_value atof (text name) (text type) (some (text value)) ≡ returns (some made)

  abbrev pub line_text : Line → List ℕ
  line_text e = text e.name ++ (b' ' ∷ (text e.type ++ (b' ' ∷ text e.value)))

  -- the file of some lines, each with its line feed
  abbrev pub print_lines : List Line → List ℕ
  print_lines [] = []
  print_lines (e ∷ es) = line_text e ++ 10 ∷ print_lines es

  module _ (l : RwLock) where
    -- The records of some lines added one after the other.
    abbrev pub add_lines : List Line → Config atof l → Run (Config atof l × FileEnd)
    add_lines [] d = returns (d, ended)
    add_lines (e ∷ es) d =
        dict_add l (config_httype Float) d e.made.name e.made >>= (λ r. add_lines es r.0)

    on_record-line :
        (rest : Config atof l → Run (Config atof l × FileEnd)) (e : Line) (d : Config atof l)
        → on_record atof l rest (line_text e) d
          ≡ (dict_add l (config_httype Float) d e.made.name e.made >>= (λ r. rest r.0))
    unfolding on_record
    on_record-line rest e d =
        let n = e.name in
        let t = e.type in
        let v = e.value in
        let two = text t ++ (b' ' ∷ text v) in
        rw
          (
            behind-head blanks n.head (n.tail ++ (b' ' ∷ two)) n.no_blank.0,
            before-Free blanks (text n) two b' ' n.no_blank refl,
            after-Free blanks (text n) two b' ' n.no_blank refl,
            behind-head blanks t.head (t.tail ++ (b' ' ∷ text v)) t.no_blank.0,
            before-Free blanks (text t) (text v) b' ' t.no_blank refl,
            after-Free blanks (text t) (text v) b' ' t.no_blank refl,
            behind-head blanks v.head v.tail v.no_blank.0,
            before-all blanks (text v) v.no_blank,
            after-all blanks (text v) v.no_blank,
            e.makes,
          )
          refl

    line-Free :
        (ds : List ℕ) (e : Line)
        → among ds b' ' ≡ false
        → Free ds (text e.name)
        → Free ds (text e.type)
        → Free ds (text e.value)
        → Free ds (line_text e)
    line-Free ds e space n t v =
        Free-append ds (text e.name) (b' ' ∷ (text e.type ++ (b' ' ∷ text e.value))) n
          (space, Free-append ds (text e.type) (b' ' ∷ text e.value) t (space, v))

    line-no_newline : (e : Line) → Free newline (line_text e)
    unfolding among
    line-no_newline e =
        line-Free newline e refl e.name.no_newline e.type.no_newline e.value.no_newline

    print-no_nul : (es : List Line) → Free (0 ∷ []) (print_lines es)
    unfolding among
    print-no_nul [] = tt
    print-no_nul (e ∷ es) =
        Free-append (0 ∷ []) (line_text e) (10 ∷ print_lines es)
          (line-Free (0 ∷ []) e refl e.name.no_nul e.type.no_nul e.value.no_nul)
          (refl, print-no_nul es)

    -- a line without its first byte
    abbrev line_tail : Line → List ℕ
    line_tail e = e.name.tail ++ (b' ' ∷ (text e.type ++ (b' ' ∷ text e.value)))

    head-no_newline : (e : Line) → among newline e.name.head ≡ false
    head-no_newline e = e.name.no_newline.0

    next_line-print :
        (e : Line) (es : List Line)
        → next_line (print_lines (e ∷ es)) ≡ (line_text e, print_lines es)
    unfolding next_line
    next_line-print e es =
        rw
          (
            delimiters-head newline e.name.head (line_tail e ++ 10 ∷ print_lines es)
                (head-no_newline e),
            behind-head newline e.name.head (line_tail e ++ 10 ∷ print_lines es)
                (head-no_newline e),
            before-Free newline (line_text e) (print_lines es) 10 (line-no_newline e) refl,
            after-Free newline (line_text e) (print_lines es) 10 (line-no_newline e) refl,
          )
          refl

    on_line-line :
        (loop : List ℕ → List ℕ → Config atof l → Run (Config atof l × FileEnd)) (e : Line)
        (nextln : List ℕ) (d : Config atof l)
        → on_line atof l loop (line_text e) nextln d ≡ (
            dict_add l (config_httype Float) d e.made.name e.made
            >>= (λ r. loop (next_line nextln).0 (next_line nextln).1 r.0))
    unfolding on_line
    on_line-line loop e nextln d =
        rw (on_line, e.no_comment)
          (on_record-line (loop (next_line nextln).0 (next_line nextln).1) e d)

    parse_lines-line :
        (e : Line) (fuel : ℕ) (nextln : List ℕ) (d : Config atof l)
        → parse_lines atof l (suc fuel) (line_text e) nextln d
          ≡ on_line atof l (parse_lines atof l fuel) (behind newline (line_text e)) nextln d
    unfolding parse_lines
    parse_lines-line e fuel nextln d = refl

    parse-none :
        (fuel : ℕ) (d : Config atof l)
        → parse_lines atof l (suc fuel) (next_line []).0 (next_line []).1 d ≡ returns (d, ended)
    unfolding parse_lines next_line
    parse-none fuel d = refl

    -- The lines that are left in the file are read to its end.
    parse-next :
        (es : List Line) (fuel : ℕ) (d : Config atof l)
        → length es < fuel
        → parse_lines atof l fuel (next_line (print_lines es)).0 (next_line (print_lines es)).1 d
          ≡ add_lines es d
    parse-next es zero d h = absurd (omega arith)
    parse-next [] (suc fuel) d h = parse-none fuel d
    parse-next (e ∷ es) (suc fuel) d h =
        rw
          (
            next_line-print e es,
            parse_lines-line e fuel (print_lines es) d,
            behind-head newline e.name.head (line_tail e) (head-no_newline e),
          )
          (on_line-line (parse_lines atof l fuel) e (print_lines es) d
            ∙ ap (λ f. dict_add l (config_httype Float) d e.made.name e.made >>= f)
                (λ i. λ r. parse-next es fuel r.0 (omega arith) i))

    parse-lines :
        (e : Line) (es : List Line) (fuel : ℕ) (d : Config atof l)
        → length (e ∷ es) < fuel
        → parse_lines atof l fuel (line_text e) (print_lines es) d ≡ add_lines (e ∷ es) d
    parse-lines e es fuel d h =
        subst (λ n. parse_lines atof l fuel n.0 n.1 d ≡ add_lines (e ∷ es) d) (next_line-print e es)
          (parse-next (e ∷ es) fuel d h)

    length-print : (es : List Line) → length es ≤ length (print_lines es)
    length-print [] = omega arith
    length-print (e ∷ es) =
        omega (arith, length-print es, length-append (line_text e) (10 ∷ print_lines es))

    -- A file of at least one line, each of three words with a blank between them, a type that `record_make`
    -- knows and a line feed, is read to its end, and what is done is to add the records of its lines one
    -- after the other to a new dictionary: no line is lost, and none is taken for a comment or an error.
    pub config_parse_file-print :
        (e : Line) (es : List Line)
        → config_parse_file atof l (some (print_lines (e ∷ es)))
          ≡ add_lines (e ∷ es) (dict_create l (config_httype Float))
    unfolding config_parse_file
    config_parse_file-print e es =
        rw
          (
            before-all (0 ∷ []) (print_lines (e ∷ es)) (print-no_nul (e ∷ es)),
            behind-head newline e.name.head (line_tail e ++ 10 ∷ print_lines es)
                (head-no_newline e),
            before-Free newline (line_text e) (print_lines es) 10 (line-no_newline e) refl,
            after-Free newline (line_text e) (print_lines es) 10 (line-no_newline e) refl,
          )
          (parse-lines e es (length (print_lines (e ∷ es)) + 2)
            (dict_create l (config_httype Float)) (omega (arith, length-print (e ∷ es))))
