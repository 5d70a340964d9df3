-- ===== src/Protocol/Parser.antt =====
-- src/protocol/Parser.h and Parser.cpp. A character is its byte, and a text its list of bytes. An
-- exception keeps the state that the parser had when it was thrown.
pub mod Stream
pub mod Fields
pub mod Lines
pub mod Progress
use ts_sem.Prelude.{
  ℕ, suc, ◌+◌, ◌-◌, ◌*◌, ◌%◌, ◌^◌, Bool, true, false, ◌&&◌, ◌||◌, Option, none, some, List, [], ◌∷◌,
  ◌++◌, ◌==◌, ltb, leb, if◌then◌else◌,
}
use ts_sem.Prelude.Bytes.{Bytes, bytes_eq, codes}
use ts_sem.Prelude.Int.{ℤ, pos, negsuc, ◌+ℤ◌, ◌-ℤ◌}
use ts_sem.Execute
use ts_sem.Execute.{Command}

pub data State : Type 0 where
  s_cr s_lf s_name sp_key sp_flags sp_expr_time_start sp_expr_time sp_bytes sg_key : State

pub data Error : Type 0 where
  unknown_command : Bytes → Error
  no_key flags_overflow expire_overflow bytes_overflow : Error
  invalid_char : ℕ → ℕ → Error
  unknown_state unsupported_command : Error

pub record Parser : Type 0 where
  pub state : State
  pub name : Bytes
  pub keys : List Bytes
  pub flags : ℕ
  pub exprtime : ℤ
  pub bytes : ℕ
  pub negative : Bool
  pub cur_key : Bytes
  pub parse_complete : Bool

-- One byte: the next state, an exception, or an overflow of a signed number, which is undefined.
pub data Outcome : Type 0 where
  next : Parser → Outcome
  throw : Parser → Error → Outcome
  undefined : Outcome

abbrev pub space : ℕ
space = 32

abbrev pub cr : ℕ
cr = 13

abbrev pub lf : ℕ
lf = 10

abbrev pub is_digit : ℕ → Bool
is_digit c = leb b'0' c && leb c b'9'

-- `Reset` does not touch `negative`.
unfoldable pub reset : Parser → Parser
reset p = record {
  state = s_name;
  name = [];
  keys = [];
  flags = 0;
  exprtime = pos 0;
  bytes = 0;
  negative = p.negative;
  cur_key = [];
  parse_complete = false;
}

-- A new parser: `Parser() { Reset(); }` over whatever the memory of `negative` holds.
unfoldable pub fresh : Bool → Parser
fresh negative = record {
  state = s_name;
  name = [];
  keys = [];
  flags = 0;
  exprtime = pos 0;
  bytes = 0;
  negative = negative;
  cur_key = [];
  parse_complete = false;
}

-- `name == "…"` for one of the names
unfoldable pub is_put_name : Bytes → Bool
is_put_name n =
    bytes_eq n (codes "set")
    || (bytes_eq n (codes "add") || (bytes_eq n (codes "append") || bytes_eq n (codes "prepend")))

pub is_get_name : Bytes → Bool
is_get_name n = bytes_eq n (codes "get") || bytes_eq n (codes "gets")

step_name : Parser → ℕ → Outcome
unfolding is_put_name is_get_name
step_name p c =
    if (c == space) || (c == cr)
    then (if is_put_name p.name
        then next (record p { state = sp_key })
        else if is_get_name p.name
        then next (record p { state = sg_key })
        else if bytes_eq p.name (codes "stats")
        then next (record p { state = s_lf })
        else throw p (unknown_command p.name))
    else next (record p { name = p.name ++ c ∷ [] })

step_put_key : Parser → ℕ → Outcome
step_put_key p c =
    if c == space
    then next (record p { state = sp_flags; keys = p.keys ++ p.cur_key ∷ [] })
    else next (record p { cur_key = p.cur_key ++ c ∷ [] })

abbrev is_empty : List Bytes → Bool
is_empty [] = true
is_empty (_ ∷ _) = false

step_get_key : Parser → ℕ → Outcome
step_get_key p c =
    if c == cr
    then (let q : Parser = record p { keys = p.keys ++ p.cur_key ∷ [] } in
        if is_empty q.keys then throw q no_key else next (record q { cur_key = []; state = s_lf }))
    else if c == space
    then next (record p { state = sg_key; keys = p.keys ++ p.cur_key ∷ []; cur_key = [] })
    else next (record p { cur_key = p.cur_key ++ c ∷ [] })

-- `(n * 10) + (c - '0')` in `uint32_t`
pub push_digit : ℕ → ℕ → ℕ
push_digit n c = (n * 10 + (c - b'0')) % 2 ^ 32

step_flags : Parser → ℕ → Outcome
unfolding push_digit
step_flags p c =
    if c == space
    then next (record p { negative = false; state = sp_expr_time_start })
    else if is_digit c
    then (let f : ℕ = push_digit p.flags c in
        if ltb f p.flags then throw p flags_overflow else next (record p { flags = f }))
    else next p

step_expr_time_start : Parser → ℕ → Outcome
step_expr_time_start p c =
    if c == b'-'
    then next (record p { negative = true; state = sp_expr_time })
    else if is_digit c
    then next (record p { exprtime = pos (c - b'0'); state = sp_expr_time })
    else next p

-- Whether an integer is an `int32_t`.
abbrev in_int32 : ℤ → Bool
in_int32 (pos n) = ltb n (2 ^ 31)
in_int32 (negsuc n) = ltb n (2 ^ 31)

abbrev ltb_ℤ : ℤ → ℤ → Bool
ltb_ℤ (pos a) (pos b) = ltb a b
ltb_ℤ (pos a) (negsuc b) = false
ltb_ℤ (negsuc a) (pos b) = true
ltb_ℤ (negsuc a) (negsuc b) = ltb b a

-- A digit of the expiration time is added or subtracted.
pub push_expire : Bool → ℤ → ℕ → ℤ
push_expire true t c = t -ℤ pos (c - b'0')
push_expire false t c = t +ℤ pos (c - b'0')

-- `et > exprtime` for a negative time, `et < exprtime` for another
abbrev expire_wrong : Bool → ℤ → ℤ → Bool
expire_wrong true t et = ltb_ℤ t et
expire_wrong false t et = ltb_ℤ et t

step_expr_time : Parser → ℕ → Outcome
unfolding push_expire
step_expr_time p c =
    if c == space
    then next (record p { state = sp_bytes })
    else if is_digit c
    then (let et : ℤ = push_expire p.negative p.exprtime c in
        if in_int32 et
        then (if expire_wrong p.negative p.exprtime et
            then throw p expire_overflow
            else next (record p { exprtime = et }))
        else undefined)
    else next p

step_bytes : Parser → ℕ → Outcome
unfolding push_digit
step_bytes p c =
    if c == cr
    then next (record p { state = s_lf })
    else if is_digit c
    then (let b : ℕ = push_digit p.bytes c in
        if ltb b p.bytes then throw p bytes_overflow else next (record p { bytes = b }))
    else next p

step_lf : Parser → ℕ → ℕ → Outcome
step_lf p c at =
    if c == lf then next (record p { parse_complete = true }) else throw p (invalid_char c at)

-- The switch over the state, for the byte `c` at position `at`.
dispatch : State → Parser → ℕ → ℕ → Outcome
unfolding step_name step_put_key step_get_key step_flags step_expr_time_start step_expr_time
    step_bytes step_lf
dispatch s_name p c at = step_name p c
dispatch sp_key p c at = step_put_key p c
dispatch sg_key p c at = step_get_key p c
dispatch sp_flags p c at = step_flags p c
dispatch sp_expr_time_start p c at = step_expr_time_start p c
dispatch sp_expr_time p c at = step_expr_time p c
dispatch sp_bytes p c at = step_bytes p c
dispatch s_lf p c at = step_lf p c at
dispatch s_cr p c at = throw p unknown_state

unfoldable pub step : Parser → ℕ → ℕ → Outcome
unfolding dispatch
step p c at = dispatch p.state p c at

-- The result of `Parse`: the parser, and how many bytes it has read.
pub data Parsed : Type 0 where
  done : Parser → ℕ → Parsed
  threw : Parser → Error → Parsed
  overflowed : Parsed

-- An exception leaves the loop.
abbrev pub on_next : Outcome → (Parser → Parsed) → Parsed
on_next (next q) go = go q
on_next (throw q e) go = threw q e
on_next undefined go = overflowed

-- The loop of `Parse` at position `at`.
pub parse_loop : Bytes → ℕ → Parser → Parsed
parse_loop [] at p = done p at
parse_loop (c ∷ cs) at p =
    if p.parse_complete then done p at else on_next (step p c at) (λ q. parse_loop cs (suc at) q)

unfoldable pub parse : Bytes → Parser → Parsed
unfolding parse_loop
parse input p = parse_loop input 0 p

-- The result of `Build`: the command, or null, with the value of `body_size` after the call.
pub data Built : Type 0 where
  built : Option Command → ℕ → Built
  build_threw : Error → Built
  build_undefined : Built

-- `keys[0]` of an empty vector is undefined.
insert_with : (Execute.InsertCommand → Command) → Parser → List Bytes → Built
insert_with make p [] = build_undefined
insert_with make p (k ∷ ks) =
    built (some (make (record { key = k; flags = p.flags; expire = p.exprtime }))) p.bytes

build_command : Parser → Built
unfolding insert_with
build_command p =
    if bytes_eq p.name (codes "set")
    then insert_with Command.set p p.keys
    else if bytes_eq p.name (codes "add")
    then insert_with Command.add p p.keys
    else if bytes_eq p.name (codes "append")
    then insert_with Command.append p p.keys
    else if bytes_eq p.name (codes "get")
    then built (some (Command.get p.keys)) p.bytes
    else if bytes_eq p.name (codes "stats")
    then built (some Command.stats) p.bytes
    else build_threw unsupported_command

pub build : Parser → ℕ → Built
unfolding build_command
build p body_size = elim p.state [ s_lf ↦ build_command p | _ ↦ built none body_size ]
