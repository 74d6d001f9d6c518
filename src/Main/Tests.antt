-- ===== src/Main/Tests.antt =====
-- The program with four loops, to which four connections arrive and one of which is too large.
use wserver.Prelude.{ℕ, refl, List, [], ◌∷◌, Returns, arith}
use wserver.Acceptor.{accepted, failed, econnaborted}
use wserver.Acceptor.Drain.{connections}
use wserver.TcpServer.{listen}
use wserver.Main.Turns.{Turn, arrive, leave, turns, arrived, Kept}
use wserver.Main.Start.{started, round_robin, empty_ledger, main-Kept}

abbrev loops : List ℕ
loops = 11 ∷ 12 ∷ 13 ∷ 14 ∷ []

abbrev day : List Turn
day =
    arrive (accepted 20 ∷ accepted 21 ∷ failed econnaborted ∷ accepted 22 ∷ [])
    ∷ leave 1
    ∷ arrive (accepted 100001 ∷ accepted 20 ∷ [])
    ∷ leave 1
    ∷ []

main-Kept_example :
    Returns
      (Kept
        (round_robin loops)
        ((7, listen) ∷ [])
        empty_ledger
        (started 7 loops)
        (connections (arrived day)))
      (turns day (started 7 loops))
main-Kept_example =
    main-Kept 7 loops day refl ((refl, tt), (omega arith, (tt, (omega arith, tt)))) (omega arith)
