-- ===== src/Network/Connection/SetRequest.antt =====
-- A whole Set request in one read: from its bytes to the command on the storage.
use ts_sem.Prelude.{
  ℕ, suc, ◌+◌, ◌-◌, ◌^◌, ◌<◌, ◌≡◌, refl, ap, ◌∙◌, Bool, true, false, List, [], ◌∷◌, ◌++◌, length,
  drop, drop_prefix, arith, length-append,
}
use ts_sem.Prelude.Bytes.{Bytes, codes, bytes_eq}
use ts_sem.Prelude.Int.{ℤ, pos}
use ts_sem.Run
use ts_sem.Run.{Run, Cmd, ok}
use ts_sem.Storage.Api.{StorageApi}
use ts_sem.Execute.{Command, execute, crlf}
use ts_sem.Protocol.Parser.{reset, fresh, is_put_name, space, cr, lf}
use ts_sem.Protocol.Parser.Fields.{IsWord, IsDigits, value, digit_sum}
use ts_sem.Protocol.Parser.Lines.{put_line, finished, put_line-parses, build_put}
use ts_sem.Network.Connection.Request.{waiting, queued, read_loop_line}
use ts_sem.Network.Connection.{Connection, go_on, run_command, read_loop}

drop-put_line :
    (name key flags : Bytes) (e : ℕ) (es size rest : Bytes)
    → drop
        (length name + length key + length flags + length es + length size + 7)
        (put_line name key flags e es size rest)
      ≡ rest
drop-put_line name key flags e es size rest =
    let n5 = length size + 2 in
    let n4 = length es + suc n5 in
    let n3 = suc (suc n4) in
    let n2 = length flags + n3 in
    let n1 = length key + suc n2 in
    let r5 : Bytes = size ++ (cr ∷ (lf ∷ rest)) in
    let r4 : Bytes = es ++ (space ∷ r5) in
    let r3 : Bytes = flags ++ (space ∷ (e ∷ r4)) in
    let r2 : Bytes = key ++ (space ∷ r3) in
    let whole : length name + length key + length flags + length es + length size + 7
        ≡ length name + suc n1 =
      omega arith in
    ap (λ m. drop m (put_line name key flags e es size rest)) whole
    ∙ drop_prefix name (space ∷ r2) (suc n1)
    ∙ drop_prefix key (space ∷ r3) (suc n2)
    ∙ drop_prefix flags (space ∷ (e ∷ r4)) n3
    ∙ drop_prefix es (space ∷ r5) (suc n5)
    ∙ drop_prefix size (cr ∷ (lf ∷ rest)) 2

reset-finished :
    (nm : Bytes) (ks : List Bytes) (fl : ℕ) (et : ℤ) (by : ℕ) (ck : Bytes)
    → reset (finished nm ks fl et by false ck) ≡ fresh false
unfolding reset fresh
reset-finished nm ks fl et by ck = refl

module _ {S : Type 0} (storage : StorageApi S) (c : Connection) (key flags : Bytes) (e : ℕ)
    (es size body : Bytes) (b : Bool) (s : S) (kw : IsWord key) (fd : IsDigits flags)
    (fs : value 0 flags < 2 ^ 32) (ed : IsDigits (e ∷ es)) (esm : digit_sum (e - b'0') es < 2 ^ 31)
    (sd : IsDigits size) (ss : value 0 size < 2 ^ 32) (announced : length body ≡ value 0 size)
    (positive : 0 < length body) where
  -- What the Set command of the line does with the body and its line end.
  abbrev pub performed : Run S Bytes
  performed =
      execute storage
        (Command.set
          (record { key = key; flags = value 0 flags; expire = pos (digit_sum (e - b'0') es) }))
        (body ++ crlf) s

  pub read_loop-set :
      read_loop
        (run_command storage (λ n. true))
        (put_line (codes "set") key flags e es size (body ++ crlf) ∷ [])
        (waiting c b)
        s
      ≡ Run.and_then performed (λ reply. Run.pure (go_on (queued c reply)))
  unfolding is_put_name bytes_eq
  read_loop-set =
      let arg = body ++ crlf in
      let line = put_line (codes "set") key flags e es size arg in
      let f = value 0 flags in
      let n = value 0 size in
      let t = pos (digit_sum (e - b'0') es) in
      let parsed =
        put_line-parses (codes "set") key flags e es size arg b refl
          (refl, refl, (refl, refl, (refl, refl, tt))) kw fd fs ed esm sd ss in
      read_loop_line storage c 115 (drop 1 line) arg _ _ b _ n s parsed refl
        (build_put (codes "set") key f t n c.arg_remains false key).0 (omega arith)
        (omega (arith, announced, positive)) ss
        (drop-put_line (codes "set") key flags e es size arg)
        (omega (arith, length-append body crlf, announced))
        (reset-finished (codes "set") (key ∷ []) f t n key)
