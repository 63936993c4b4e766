-- ===== src/Consensus/Primary.antt =====
-- consensus/primary.go: `PrimaryArbiter`, which elects the one node whose sign requests are
-- served. A method returns the new arbiter; the mutex makes each call one step. An instant is a
-- number of nanoseconds on the monotonic clock, and the clock's reading is an argument.
pub mod Laws
pub mod Order
pub mod History
use bridge_remote_signer.Base.{
  Bool, Bytes, List, [], false, if◌then◌else◌, insert, length, lookup, ltb, ltb_ℤ, none, not, pos,
  some, true, ℕ, ℤ, ◌&&◌, ◌+◌, ◌-◌, ◌==◌, ◌∷◌, bytes_eq, nat_eq,
}

pub record PrimaryArbiter : Type 0 where
  pub timeout : ℕ
  pub rank : List (Bytes × ℕ)
  pub primary : Bytes
  pub last_req : ℕ
  pub max_height : ℤ

-- The loop that fills `rank`, from index `i` on; the first place of a repeated id counts.
rank_from : ℕ → List Bytes → List (Bytes × ℕ) → List (Bytes × ℕ)
rank_from i [] rank = rank
rank_from i (id ∷ rest) rank =
    rank_from (i + 1) rest (elim (lookup id rank) [ some dup ↦ rank | none ↦ insert id i rank ])

pub new_preferring_primary_arbiter : ℕ → List Bytes → PrimaryArbiter
unfolding rank_from
new_preferring_primary_arbiter timeout prefer_order = record {
  timeout = timeout;
  rank = rank_from 0 prefer_order [];
  primary = [];
  last_req = 0;
  max_height = pos 0;
}

pub new_primary_arbiter : ℕ → PrimaryArbiter
unfolding new_preferring_primary_arbiter
new_primary_arbiter timeout = new_preferring_primary_arbiter timeout []

-- `len(a.rank) == 0` is one more way for `id` not to be listed.
unfoldable pub outranks : PrimaryArbiter → Bytes → Bool
outranks a id = if length a.rank == 0 then false else elim (lookup id a.rank) [
  | none ↦ false
  | some mine ↦ elim (lookup a.primary a.rank) [ none ↦ true | some theirs ↦ ltb mine theirs ]
]

unfoldable pub grant : PrimaryArbiter → ℤ → PrimaryArbiter
grant a height = if ltb_ℤ a.max_height height then record a { max_height = height } else a

-- The switch of `Acquire`, case by case in the source's order.
unfoldable pub acquire : PrimaryArbiter → ℕ → Bytes → ℤ → PrimaryArbiter × Bool
unfolding grant
acquire a now id height =
    if a.primary == id
    then (grant (record a { last_req = now }) height, true)
    else if a.primary == []
    then (grant (record a { primary = id; last_req = now }) height, true)
    else if ltb a.timeout (now - a.last_req)
    then (grant (record a { primary = id; last_req = now }) height, true)
    else if outranks a id && ltb_ℤ height a.max_height
    then (a, false)
    else if outranks a id
    then (grant (record a { primary = id; last_req = now }) height, true)
    else (a, false)

unfoldable pub release : PrimaryArbiter → Bytes → PrimaryArbiter × Bool
release a id =
    if not (a.primary == id) then (a, false) else (record a { primary = []; last_req = 0 }, true)
