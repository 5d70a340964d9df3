-- ===== src/Tests/Lines.antt =====
-- The parser at the inputs of its unit tests, and the theorems at concrete lines.
use ts_sem.Prelude.{◌≡◌, refl, true, false, [], ◌∷◌, ◌++◌, some, arith}
use ts_sem.Prelude.Bytes.{codes, bytes_eq}
use ts_sem.Prelude.Int.{pos, negsuc, ◌-ℤ◌}
use ts_sem.Execute
use ts_sem.Protocol.Parser.{is_put_name, done, built, fresh, parse, build, step}
use ts_sem.Protocol.Parser.Stream.{parse-Counts, Counts}
use ts_sem.Protocol.Parser.Lines.{put_line, put_line-parses, finished, get_line-parses, key_list}

set_line :
    parse (codes "set foo 0 0 6\r\nfooval") (fresh false)
    ≡ done (finished (codes "set") (codes "foo" ∷ []) 0 (pos 0) 6 false (codes "foo")) 15
unfolding parse fresh step is_put_name bytes_eq
set_line = refl

-- The expiration time of "add bar 10 -1 60" is read as it is written.
add_line :
    parse (codes "add bar 10 -1 60\r\n") (fresh false)
    ≡ done (finished (codes "add") (codes "bar" ∷ []) 10 (negsuc 0) 60 true (codes "bar")) 18
unfolding parse fresh step is_put_name bytes_eq ◌-ℤ◌
add_line = refl

parse-Counts_example :
    Counts (codes "get a\r\nget b\r\n") 0 (parse (codes "get a\r\nget b\r\n") (fresh false))
parse-Counts_example = parse-Counts (codes "get a\r\nget b\r\n") (fresh false)

-- An expiration time of 12 is read as 3.
put_line-parses_example :
    parse
      (put_line (codes "set") (codes "foo") (codes "10") 49 (codes "2") (codes "6") [])
      (fresh true)
    ≡ done (finished (codes "set") (codes "foo" ∷ []) 10 (pos 3) 6 false (codes "foo")) 17
unfolding is_put_name bytes_eq
put_line-parses_example =
    put_line-parses (codes "set") (codes "foo") (codes "10") 49 (codes "2") (codes "6") [] true refl
      (refl, refl, (refl, refl, (refl, refl, tt))) (refl, refl, (refl, refl, (refl, refl, tt)))
      (refl, (refl, tt)) (omega arith) (refl, (refl, tt)) (omega arith) (refl, tt) (omega arith)

get_line-parses_example :
    (parse (codes "get" ++ (32 ∷ key_list (codes "a") (codes "b" ∷ []) [])) (fresh true)
      ≡ done (finished (codes "get") (codes "a" ∷ (codes "b" ∷ [])) 0 (pos 0) 0 true []) 9)
    × (build (finished (codes "get") (codes "a" ∷ (codes "b" ∷ [])) 0 (pos 0) 0 true []) 7
        ≡ built (some (Execute.Command.get (codes "a" ∷ (codes "b" ∷ [])))) 0)
get_line-parses_example =
    get_line-parses (codes "a") (codes "b" ∷ []) [] true 7 ((refl, refl, tt), (refl, refl, tt))
