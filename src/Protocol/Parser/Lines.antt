-- ===== src/Protocol/Parser/Lines.antt =====
-- Whole command lines: what Parse and Build make of them.
use ts_sem.Prelude.{
  ℕ, suc, ◌+◌, ◌-◌, ◌^◌, ◌<◌, ◌≡◌, refl, ap, ◌∙◌, Bool, true, false, some, List, [], ◌∷◌, ◌++◌,
  length, arith,
}
use mathlib.Core.List.{append_assoc}
use mathlib.Core.Path.{ap₂}
use ts_sem.Prelude.Bytes.{Bytes, codes, bytes_eq}
use ts_sem.Prelude.Int.{ℤ, pos}
use ts_sem.Execute.{Command}
use ts_sem.Protocol.Parser.{
  Parser, State, next, done, built, build_threw, unsupported_command, space, cr, lf, is_put_name,
  is_get_name, step, step_name, step_put_key, step_get_key, step_flags, step_expr_time, step_bytes,
  step_lf, parse_loop, parse, fresh, build,
}
use ts_sem.Protocol.Parser.Stream.{complete_stops}
use ts_sem.Protocol.Parser.Fields.{
  mid, IsWord, IsDigits, value, digit_sum, loop_next, start_digit, read_name, read_put_key,
  read_get_key, read_flags, read_bytes, read_expire,
}

-- "<name> <key> <flags> <exptime> <bytes>\r\n", with `e ∷ es` for the digits of the expiration time.
abbrev pub put_line : (name key flags : Bytes) (e : ℕ) (es size rest : Bytes) → Bytes
put_line name key flags e es size rest =
    name
    ++ (space
        ∷ (key
            ++ (space ∷ (flags ++ (space ∷ (e ∷ (es ++ (space ∷ (size ++ (cr ∷ (lf ∷ rest)))))))))))

-- The parser at the end of a line.
abbrev pub finished : Bytes → List Bytes → ℕ → ℤ → ℕ → Bool → Bytes → Parser
finished nm ks fl et by ng ck = record (mid State.s_lf nm ks fl et by ng ck) {
  parse_complete = true;
}

module _ (nm : Bytes) (ks : List Bytes) (fl : ℕ) (et : ℤ) (by : ℕ) (ng : Bool) (ck : Bytes)
    (at : ℕ) where
  name_end_put :
      is_put_name nm ≡ true
      → step (mid State.s_name nm ks fl et by ng ck) space at
        ≡ next (mid State.sp_key nm ks fl et by ng ck)
  unfolding step step_name
  name_end_put h = rw h refl

  key_end :
      step (mid State.sp_key nm ks fl et by ng ck) space at
      ≡ next (mid State.sp_flags nm (ks ++ ck ∷ []) fl et by ng ck)
  unfolding step step_put_key
  key_end = refl

  flags_end :
      step (mid State.sp_flags nm ks fl et by ng ck) space at
      ≡ next (mid State.sp_expr_time_start nm ks fl et by false ck)
  unfolding step step_flags
  flags_end = refl

  expire_end :
      step (mid State.sp_expr_time nm ks fl et by ng ck) space at
      ≡ next (mid State.sp_bytes nm ks fl et by ng ck)
  unfolding step step_expr_time
  expire_end = refl

  bytes_end :
      step (mid State.sp_bytes nm ks fl et by ng ck) cr at
      ≡ next (mid State.s_lf nm ks fl et by ng ck)
  unfolding step step_bytes
  bytes_end = refl

  line_end : step (mid State.s_lf nm ks fl et by ng ck) lf at ≡ next (finished nm ks fl et by ng ck)
  unfolding step step_lf
  line_end = refl

  name_end_get :
      is_put_name nm ≡ false
      → is_get_name nm ≡ true
      → step (mid State.s_name nm ks fl et by ng ck) space at
        ≡ next (mid State.sg_key nm ks fl et by ng ck)
  unfolding step step_name
  name_end_get h k = rw (h, k) refl

  get_key_space :
      step (mid State.sg_key nm ks fl et by ng ck) space at
      ≡ next (mid State.sg_key nm (ks ++ ck ∷ []) fl et by ng [])
  unfolding step step_get_key
  get_key_space = refl

-- The last two bytes of a line complete the command, and what follows is not read.
line_tail :
    (rest nm : Bytes) (ks : List Bytes) (fl : ℕ) (et : ℤ) (by : ℕ) (ng : Bool) (ck : Bytes) (at : ℕ)
    → parse_loop (lf ∷ rest) at (mid State.s_lf nm ks fl et by ng ck)
      ≡ done (finished nm ks fl et by ng ck) (suc at)
line_tail rest nm ks fl et by ng ck at =
    loop_next lf rest at _ _ refl (line_end nm ks fl et by ng ck at)
    ∙ complete_stops rest (suc at) (finished nm ks fl et by ng ck) refl

-- A line with a storage command's name, a key without spaces and carriage returns, flags and a size
-- of digits that stand for numbers below 2^32, and an expiration time of at least one digit with a
-- digit sum below 2^31 is parsed to its end: name, key, flags and size are what is written, and the
-- expiration time is the sum of its digits.
pub put_line-parses :
    (name key flags : Bytes) (e : ℕ) (es size rest : Bytes) (b : Bool)
    → is_put_name name ≡ true
    → IsWord name
    → IsWord key
    → IsDigits flags
    → value 0 flags < 2 ^ 32
    → IsDigits (e ∷ es)
    → digit_sum (e - b'0') es < 2 ^ 31
    → IsDigits size
    → value 0 size < 2 ^ 32
    → parse (put_line name key flags e es size rest) (fresh b)
      ≡ done
          (finished name
            (key ∷ [])
            (value 0 flags)
            (pos (digit_sum (e - b'0') es))
            (value 0 size)
            false
            key)
          (length name + length key + length flags + length es + length size + 7)
unfolding parse fresh
put_line-parses name key flags e es size rest b put nw kw fd fs ed esm sd ss =
    let r5 : Bytes = cr ∷ (lf ∷ rest) in
    let r4 : Bytes = space ∷ (size ++ r5) in
    let r3 : Bytes = space ∷ (e ∷ (es ++ r4)) in
    let r2 : Bytes = space ∷ (flags ++ r3) in
    let r1 : Bytes = space ∷ (key ++ r2) in
    let ks = key ∷ [] in
    let f = value 0 flags in
    let z = value 0 size in
    let t = pos (digit_sum (e - b'0') es) in
    let n1 = 0 + length name in
    let n2 = suc n1 + length key in
    let n3 = suc n2 + length flags in
    let n4 = suc (suc n3) + length es in
    let n5 = suc n4 + length size in
    read_name r1 [] [] name [] [] 0 (pos 0) 0 b 0 nw
    ∙ loop_next space (key ++ r2) n1 _ _ refl (name_end_put name [] 0 (pos 0) 0 b [] n1 put)
    ∙ read_put_key r2 name [] key [] 0 (pos 0) 0 b (suc n1) kw
    ∙ loop_next space (flags ++ r3) n2 _ _ refl (key_end name [] 0 (pos 0) 0 b key n2)
    ∙ read_flags r3 name ks flags 0 (pos 0) 0 b key (suc n2) fd fs
    ∙ loop_next space (e ∷ (es ++ r4)) n3 _ _ refl (flags_end name ks f (pos 0) 0 b key n3)
    ∙ loop_next e (es ++ r4) (suc n3) _ _ refl
        (start_digit name ks f (pos 0) 0 false key e (suc n3) ed.0)
    ∙ read_expire r4 name ks es f (e - b'0') 0 key (suc (suc n3)) ed.1 esm
    ∙ loop_next space (size ++ r5) n4 _ _ refl (expire_end name ks f t 0 false key n4)
    ∙ read_bytes r5 name ks size f t 0 false key (suc n4) sd ss
    ∙ loop_next cr (lf ∷ rest) n5 _ _ refl (bytes_end name ks f t z false key n5)
    ∙ line_tail rest name ks f t z false key (suc n5)
    ∙ ap (done (finished name ks f t z false key)) (omega arith)

-- Build after a storage command that the server has gives that command with the key, flags and
-- expiration time that were read, and the announced size.
pub build_put :
    (name key : Bytes) (fl : ℕ) (et : ℤ) (by body : ℕ) (ng : Bool) (ck : Bytes)
    → (build (finished (codes "set") (key ∷ []) fl et by ng ck) body
        ≡ built (some (Command.set (record { key = key; flags = fl; expire = et }))) by)
      × (build (finished (codes "add") (key ∷ []) fl et by ng ck) body
          ≡ built (some (Command.add (record { key = key; flags = fl; expire = et }))) by)
      × (build (finished (codes "append") (key ∷ []) fl et by ng ck) body
          ≡ built (some (Command.append (record { key = key; flags = fl; expire = et }))) by)
      × (build (finished (codes "prepend") (key ∷ []) fl et by ng ck) body
          ≡ build_threw unsupported_command)
unfolding build bytes_eq
build_put name key fl et by body ng ck = (refl, refl, refl, refl)

-- "get <key> <key> … <key>\r\n"
abbrev pub key_list : Bytes → List Bytes → Bytes → Bytes
key_list k [] rest = k ++ (cr ∷ (lf ∷ rest))
key_list k (j ∷ ks) rest = k ++ (space ∷ key_list j ks rest)

abbrev pub AreWords : Bytes → List Bytes → Type 0
AreWords k [] = IsWord k
AreWords k (j ∷ ks) = IsWord k × AreWords j ks

abbrev pub key_list_length : Bytes → List Bytes → ℕ
key_list_length k [] = length k + 2
key_list_length k (j ∷ ks) = length k + 1 + key_list_length j ks

module _ (rest nm : Bytes) (fl : ℕ) (et : ℤ) (by : ℕ) (ng : Bool) where
  keys_end :
      (ks : List Bytes) (ck : Bytes) (at : ℕ)
      → step (mid State.sg_key nm ks fl et by ng ck) cr at
        ≡ next (mid State.s_lf nm (ks ++ ck ∷ []) fl et by ng [])
  unfolding step step_get_key
  keys_end [] ck at = refl
  keys_end (k ∷ ks) ck at = refl

  read_keys :
      (k : Bytes) (js ks : List Bytes) (at : ℕ)
      → AreWords k js
      → parse_loop (key_list k js rest) at (mid State.sg_key nm ks fl et by ng [])
        ≡ done (finished nm (ks ++ k ∷ js) fl et by ng []) (at + key_list_length k js)
  read_keys k [] ks at w =
      let n = at + length k in
      read_get_key (cr ∷ (lf ∷ rest)) nm ks k [] fl et by ng at w
      ∙ loop_next cr (lf ∷ rest) n _ _ refl (keys_end ks k n)
      ∙ line_tail rest nm (ks ++ k ∷ []) fl et by ng [] (suc n)
      ∙ ap (done (finished nm (ks ++ k ∷ []) fl et by ng [])) (omega arith)
  read_keys k (j ∷ js) ks at w =
      let n = at + length k in
      read_get_key (space ∷ key_list j js rest) nm ks k [] fl et by ng at w.0
      ∙ loop_next space (key_list j js rest) n _ _ refl (get_key_space nm ks fl et by ng k n)
      ∙ read_keys j js (ks ++ k ∷ []) (suc n) w.1
      ∙ ap₂ (λ l m. done (finished nm l fl et by ng []) m) (append_assoc ks (k ∷ []) (j ∷ js))
          (omega arith)

-- A Get line with keys that have no spaces and carriage returns is parsed to its end, and Build
-- then makes the Get command with the keys in order and no argument.
pub get_line-parses :
    (k : Bytes) (ks : List Bytes) (rest : Bytes) (b : Bool) (body : ℕ)
    → AreWords k ks
    → let p = finished (codes "get") (k ∷ ks) 0 (pos 0) 0 b [] in
      (parse (codes "get" ++ (space ∷ key_list k ks rest)) (fresh b)
        ≡ done p (4 + key_list_length k ks))
      × (build p body ≡ built (some (Command.get (k ∷ ks))) 0)
unfolding parse fresh build is_put_name is_get_name bytes_eq
get_line-parses k ks rest b body w = (
  read_name (space ∷ key_list k ks rest) [] [] (codes "get") [] [] 0 (pos 0) 0 b 0
        (refl, refl, (refl, refl, (refl, refl, tt)))
      ∙ loop_next space (key_list k ks rest) 3 _ _ refl
          (name_end_get (codes "get") [] 0 (pos 0) 0 b [] 3 refl refl)
      ∙ read_keys rest (codes "get") 0 (pos 0) 0 b k ks [] 4 w,
  refl,
)
