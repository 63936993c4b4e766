-- ===== src/Consensus/Plane/Tests.antt =====
-- Two clients at once: `node_a` takes the role over from `node_b`, which was silent for too long
-- and whose request, granted before, reaches the key after the one of `node_a`.
use bridge_remote_signer.Base.{
  Bytes, [], ascii, bytes_dec, if◌then◌else◌, pos, refl, some, ℕ, ◌==◌, ◌∷◌, ◌≡◌, bytes_eq, nat_eq,
}
use bridge_remote_signer.Consensus.Primary.{acquire, outranks, grant}
use bridge_remote_signer.Consensus.Gate.{not_primary_response}
use bridge_remote_signer.Consensus.Dial.{on_state}
use bridge_remote_signer.Consensus.Plane.{
  down, won, handed, Plane, do_connect, do_ask, do_note, do_handle, connects, asks, notes, handles,
  Reach, begin, later,
}
use bridge_remote_signer.Consensus.Plane.Laws.{role_after, IsServed, key_after}
use bridge_remote_signer.Consensus.Plane.Serves.{Reach-IsServed}
use bridge_remote_signer.Consensus.Tests.{
  node_a, node_b, comet, counting, vote_request, held_by_b, node,
}
use native.Mathlib.Decide.{ℕ_discrete}

abbrev target : ℕ → Bytes
target i = if i == 0 then node_a else node_b

abbrev chain : Bytes
chain = ascii "tellor-1"

abbrev nobody : Plane comet ℕ
nobody = record { node = node; phase = λ i. down; log = [] }

abbrev connected_b : Plane comet ℕ
connected_b = do_connect comet target nobody 1

abbrev both_connected : Plane comet ℕ
both_connected = do_connect comet target connected_b 0

abbrev b_elected : Plane comet ℕ
b_elected = do_ask comet target both_connected 1 held_by_b 7 vote_request (pos 9)

abbrev a_elected : Plane comet ℕ
a_elected =
    do_ask comet target b_elected 0 (acquire held_by_b 7 node_b (pos 9)).0 30 vote_request (pos 9)

abbrev a_served : Plane comet ℕ
a_served =
    do_handle comet counting chain (do_note comet target a_elected 0 vote_request) 0 vote_request

abbrev b_served : Plane comet ℕ
b_served =
    do_handle comet counting chain (do_note comet target a_served 1 vote_request) 1 vote_request

b_served_log :
    b_served.log
    ≡ handed 1 vote_request
      ∷ handed 0 vote_request
      ∷ won 0 30 vote_request (pos 9)
      ∷ won 1 7 vote_request (pos 9)
      ∷ []
unfolding acquire outranks grant bytes_dec ℕ_discrete
b_served_log = refl

reached : Reach comet counting chain target node b_served
unfolding ℕ_discrete acquire outranks grant bytes_dec on_state not_primary_response
reached =
    later
      (later
        (later
          (later
            (later
              (later (later (later begin (connects 1 refl)) (connects 0 refl))
                (asks 1 7 vote_request refl refl refl))
              (asks 0 30 vote_request refl refl refl))
            (notes 0 refl))
          (handles 0 refl))
        (notes 1 refl))
      (handles 1 refl)

Reach-IsServed_example :
    IsServed comet target held_by_b b_served.log
    × (b_served.node.arbiter ≡ some (role_after comet target held_by_b b_served.log))
    × (b_served.node.pv ≡ key_after comet counting chain 0 b_served.log)
Reach-IsServed_example = Reach-IsServed comet counting chain target node held_by_b refl reached
