-- ===== src/RequestLine/Run.antt =====
-- The loop with no fuel: a structural reading of `parse_loop`, one byte at a time, and the proof
-- that the fuel of `http_parse_request_line` is enough for it.
use ostrichserver.Base.{
  ℕ, zero, suc, ◌+◌, ◌*◌, ◌<◌, List, [], ◌∷◌, some, ◌≡◌, refl, ◌∙◌, arith, length, drop,
}
use ostrichserver.RequestLine.Types.{
  State, sw_check_uri_http_09, sw_http_09, Request, OsBuf, os_again, invalid_request, Step, next,
  reread, goto_done, fail,
}
use ostrichserver.RequestLine.Parse.{
  step, Parsed, at_done, parse_loop, loop_fuel, http_parse_request_line,
}

-- One byte: `step`, and `step` once more where it asks for the same byte.
unfoldable pub settle : List ℕ → State → Request → ℕ → ℕ → Step
settle buf sw r p ch = elim (step buf sw r p ch) [
  | reread sw' r' ↦ step buf sw' r' p ch
  | next sw' r' ↦ next sw' r'
  | goto_done r' ↦ goto_done r'
  | fail rc r' ↦ fail rc r'
]

-- The bytes in turn. A byte is never asked for a third time; the case is there for totality.
unfoldable pub run : List ℕ → State → ℕ → State → Request → ℕ → List ℕ → Parsed
run buf sw₀ pos sw r p [] = (os_again, sw, r, p)
run buf sw₀ pos sw r p (ch ∷ rest) = elim (settle buf sw r p ch) [
  | next sw' r' ↦ run buf sw₀ pos sw' r' (p + 1) rest
  | reread sw' r' ↦ (invalid_request, sw₀, r', pos)
  | goto_done r' ↦ at_done r' p
  | fail rc r' ↦ (rc, sw₀, r', pos)
]

-- The states that may ask for a byte again.
abbrev pub spaces_in_uri : State → ℕ
spaces_in_uri sw_check_uri_http_09 = 1
spaces_in_uri sw_http_09 = 1
spaces_in_uri _ = 0

abbrev Rereads : ℕ → Step → Type 0
Rereads n (reread sw r) = (n ≡ 1) × (spaces_in_uri sw ≡ 0)
Rereads n _ = Unit

step-Rereads :
    (buf : List ℕ) (sw : State) (r : Request) (p ch : ℕ)
    → Rereads (spaces_in_uri sw) (step buf sw r p ch)
unfolding step
step-Rereads buf sw_check_uri_http_09 r p ch = ground arith
step-Rereads buf sw_http_09 r p ch = ground arith
step-Rereads buf _ r p ch = ground arith

-- What the fuel has to exceed.
abbrev rounds : State → List ℕ → ℕ
rounds sw rest = 2 * length rest + spaces_in_uri sw

spaces_in_uri-lt : (sw : State) → spaces_in_uri sw < 2
spaces_in_uri-lt sw_check_uri_http_09 = omega arith
spaces_in_uri-lt sw_http_09 = omega arith
spaces_in_uri-lt _ = omega arith

settle-eq-step :
    (buf : List ℕ) (sw : State) (r : Request) (p ch : ℕ)
    → spaces_in_uri sw ≡ 0
    → settle buf sw r p ch ≡ step buf sw r p ch
unfolding settle
settle-eq-step buf sw r p ch h = go (step buf sw r p ch) refl (step-Rereads buf sw r p ch)
  where
    go :
        (s : Step)
        → step buf sw r p ch ≡ s
        → Rereads (spaces_in_uri sw) s
        → settle buf sw r p ch ≡ step buf sw r p ch
    go (next sw' r') e q = rw (e, settle)
    go (reread sw' r') e q = absurd (omega arith)
    go (goto_done r') e q = rw (e, settle)
    go (fail rc r') e q = rw (e, settle)

module _ (buf : List ℕ) (sw₀ : State) (pos : ℕ) where
  Loops : ℕ → Type 0
  Loops fuel =
      (sw : State) (r : Request) (p : ℕ) (rest : List ℕ)
      → rounds sw rest < fuel
      → parse_loop fuel buf sw₀ pos sw r p rest ≡ some (run buf sw₀ pos sw r p rest)

  loop_round :
      (fuel : ℕ)
      → Loops fuel
      → (sw : State) (r : Request) (p ch : ℕ) (rest : List ℕ) (s : Step) → step buf sw r p ch ≡ s
      → Rereads (spaces_in_uri sw) s
      → rounds sw (ch ∷ rest) < suc fuel
      → parse_loop (suc fuel) buf sw₀ pos sw r p (ch ∷ rest)
        ≡ some (run buf sw₀ pos sw r p (ch ∷ rest))
  unfolding Loops parse_loop run settle
  loop_round fuel ih sw r p ch rest (next sw' r') e q h =
      rw (e, parse_loop, settle, run) (ih sw' r' (p + 1) rest (omega (arith, spaces_in_uri-lt sw')))
  loop_round fuel ih sw r p ch rest (reread sw' r') e q h =
      rw (e, parse_loop, settle, run)
        (ih sw' r' p (ch ∷ rest) (omega arith) ∙ rw (settle-eq-step buf sw' r' p ch q.1, run))
  loop_round fuel ih sw r p ch rest (goto_done r') e q h = rw (e, parse_loop, settle, run)
  loop_round fuel ih sw r p ch rest (fail rc r') e q h = rw (e, parse_loop, settle, run)

  parse_loop-eq-run : (fuel : ℕ) → Loops fuel
  unfolding Loops parse_loop run
  parse_loop-eq-run zero sw r p rest h = absurd (omega arith)
  parse_loop-eq-run (suc fuel) sw r p [] h = refl
  parse_loop-eq-run (suc fuel) sw r p (ch ∷ rest) h =
      loop_round fuel (parse_loop-eq-run fuel) sw r p ch rest _ refl (step-Rereads buf sw r p ch) h

-- The parser returns on every buffer, from every state, and its result is that of `run`: each byte
-- is read at most twice.
pub http_parse_request_line-eq-run :
    (sw : State) (r : Request) (b : OsBuf)
    → http_parse_request_line sw r b ≡ some (run b.bytes sw b.pos sw r b.pos (drop b.pos b.bytes))
unfolding http_parse_request_line Loops
http_parse_request_line-eq-run sw r b =
    let rest = drop b.pos b.bytes in
    parse_loop-eq-run b.bytes sw b.pos (loop_fuel rest) sw r b.pos rest
      (omega (arith, spaces_in_uri-lt sw))
