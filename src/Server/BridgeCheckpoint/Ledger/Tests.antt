-- ===== src/Server/BridgeCheckpoint/Ledger/Tests.antt =====
-- A checkpoint that is asked for with the backend down, again after a restart, and once more.
use bridge_remote_signer.Base.{All, Bytes, List, [], arith, ascii, ok, some, subst, ◌∷◌, ◌≡◌}
use bridge_remote_signer.Server.BridgeCheckpoint.Ledger.{
  Call, checkpoint_call, reboot, Ledger, timestamps, digests, serve_calls, first_state, IsGranted,
}
use bridge_remote_signer.Server.BridgeCheckpoint.Ledger.Laws.{serve_calls-IsDescending}
use bridge_remote_signer.Server.BridgeCheckpoint.{ServerState}
use bridge_remote_signer.Server.BridgeCheckpoint.Tests.{
  self_address, domain, request, works, backend_down,
}
use bridge_remote_signer.Server.ReplayGuard.History.{IsDescending}
use bridge_remote_signer.Server.ReplayGuard.Tests.{braces, braces-IsJson}
use bridge_remote_signer.Server.Samples.{crypto, sample_signature}
use bridge_remote_signer.Text.Laws.{AreBytes}

abbrev path : Bytes
path = ascii "guard"

abbrev calls : List Call
calls = checkpoint_call backend_down request ∷ reboot ∷ checkpoint_call works request ∷ []

domain_bytes : AreBytes domain
domain_bytes = ground arith

never : (digest sig : Bytes) → backend_down.sign_raw digest ≡ some sig → AreBytes sig
never digest sig e = absurd (ground arith)

twos : (digest sig : Bytes) → works.sign_raw digest ≡ some sig → AreBytes sig
twos digest sig e =
    let same : sample_signature ≡ sig = ground arith in subst AreBytes same (omega arith)

serve_calls-IsDescending_case :
    (st : ServerState) × (serve_calls crypto braces self_address path (first_state path) calls
      ≡ ok st)
    × ((ledger : Ledger) × (digests ledger ≡ st.asked)
        × IsDescending (timestamps ledger)
        × All (IsGranted crypto self_address) ledger)
serve_calls-IsDescending_case =
    serve_calls-IsDescending crypto braces braces-IsJson self_address path calls (λ e. cc)
      ((omega arith, domain_bytes, never), (tt, ((omega arith, domain_bytes, twos), tt)))
