-- ===== src/Sdk/AutoTrack/Tests.antt =====
-- A program that works on a tracked object (sdks/typescript/src/auto-track.ts).
use raceway.Prelude.{◌≡◌, refl, true, List, [], ◌∷◌, map, some}
use raceway.Text.{codes, ◌==◌}
use raceway.Json.{num}
use raceway.Sdk.AutoTrack.{
  name, Object, plain, tracked, undefined, primitive, object, Heap, Store, put, get_property,
  set_property,
}
use raceway.Sdk.AutoTrack.Transparent.{base}
use raceway.Sdk.AutoTrack.Programs.{
  Statement, reads, writes, object_in, execute_all, direct_all, bare?, execute_all-direct_all,
}

-- accounts = { alice: { balance: 5 } }
abbrev bank : Heap
unfolding put codes
bank =
    put 0 (name (codes "alice")) (object (plain 1))
      (put 1 (name (codes "balance")) (primitive (num 5)) (λ a k. undefined))

abbrev accounts : Object
accounts = tracked (plain 0) (b'a' ∷ [])

abbrev program : List Statement
program =
    reads (name (codes "alice") ∷ []) (name (codes "balance"))
    ∷ writes (name (codes "alice") ∷ []) (name (codes "balance")) (primitive (num 6))
    ∷ reads (name (codes "alice") ∷ []) (name (codes "balance"))
    ∷ []

abbrev start : Store
start = record { heap = bank; accesses = [] }

balances :
    (execute_all true [] accounts program start).0
    ≡ some (primitive (num 5)) ∷ some undefined ∷ some (primitive (num 6)) ∷ []
unfolding execute_all codes ◌==◌ put object_in get_property set_property
balances = refl

execute_all-direct_all_example :
    let ran = execute_all true [] accounts program start in
    let plainly = direct_all (base accounts) program start.heap in
    (map bare? ran.0 ≡ plainly.0) × (ran.1.heap ≡ plainly.1)
execute_all-direct_all_example = execute_all-direct_all true [] accounts program start
