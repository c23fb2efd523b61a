-- ===== src/Trunk.antt =====
-- cmd/gui/trunkcodec.go and cmd/gui/registration.go, with `TrunkCodecOrder` of internal/pbxware/v2.go.
-- Two connected servers: the order of the codecs on their trunks, the remote batches of both directions,
-- each of which is a key of `remoteBatches`, and the progress of a registration. How the PBXware API
-- answers is given at each call. The line for the dashboard and the wait for PBXware to apply an order are
-- left out.
use swarmdialer.Prelude.{
  ℕ, suc, ◌+◌, ◌-◌, String, ◌==s◌, Bool, true, false, ◌&&◌, Option, none, some, List, [], ◌∷◌, ◌++◌,
  leb, ltb, if◌then◌else◌, length, get_elem?, set,
}
pub mod Batches
pub mod Progress

abbrev pub codecs_list : List String
codecs_list = "ulaw" ∷ "alaw" ∷ "g722" ∷ "g729" ∷ "opus" ∷ []

-- The loop of `TrunkCodecOrder`.
unfoldable pub others : String → List String → List String
others first [] = []
others first (c ∷ cs) = let rest = others first cs in if c ==s first then rest else c ∷ rest

unfoldable pub trunk_codec_order : String → List String
unfolding others
trunk_codec_order first = first ∷ others first codecs_list

-- slices.Equal and slices.Contains
unfoldable pub same_order : List String → List String → Bool
same_order [] [] = true
same_order (a ∷ xs) (b ∷ ys) = let rest = same_order xs ys in if a ==s b then rest else false
same_order _ _ = false

unfoldable pub is_member : String → List String → Bool
is_member codec [] = false
is_member codec (c ∷ cs) = let rest = is_member codec cs in if c ==s codec then true else rest

-- A server's side: whether it has a trunk, and the trunk's order at PBXware.
pub record Trunk : Type 0 where
  pub has_trunk : Bool
  pub order : List String

-- How the API answers: reading works, setting works, and the order that a failed setting leaves.
pub record Answer : Type 0 where
  pub can_read : Bool
  pub can_set : Bool
  pub left : List String

-- A batch that was admitted, with its `release`.
pub record Batch : Type 0 where
  pub codec : String
  pub released : Bool

-- `remoteBatchState` of a key, and its batches, the last admitted first.
pub record PairBatches : Type 0 where
  pub codec : String
  pub running : ℕ
  pub batches : List Batch

-- The keys of the calls from `srv` to `peer` and of those back, and the one trunk of each server, which
-- both directions use.
pub record ConnectedPair : Type 0 where
  pub there : PairBatches
  pub back : PairBatches
  pub srv : Trunk
  pub peer : Trunk

-- The loop's body on one side: whether it goes on, and the trunk.
unfoldable pub prepare_trunk : List String → Answer → Trunk → Bool × Trunk
unfolding same_order
prepare_trunk want answer t =
    if t.has_trunk
    then (if answer.can_read
        then (if same_order t.order want
            then (true, t)
            else (if answer.can_set
                then (true, record t { order = want })
                else (false, record t { order = answer.left })))
        else (false, t))
    else (true, t)

pub data Prepared : Type 0 where
  not_allowed busy trunk_failed admitted : Prepared

-- Once the codec is allowed and no other one is in use.
unfoldable pub prepare_both : String → Answer → Answer → ConnectedPair → Prepared × ConnectedPair
unfolding prepare_trunk trunk_codec_order
prepare_both codec a b s =
    let (ok, srv) = prepare_trunk (trunk_codec_order codec) a s.srv in
    let (ok', peer) = prepare_trunk (trunk_codec_order codec) b s.peer in
    if ok
    then (if ok'
        then (
          admitted,
          record s {
            there = record {
              codec = codec;
              running = suc s.there.running;
              batches = record { codec = codec; released = false } ∷ s.there.batches;
            };
            srv = srv;
            peer = peer;
          },
        )
        else (trunk_failed, record s { srv = srv; peer = peer }))
    else (trunk_failed, record s { srv = srv })

-- A batch from `srv` to `peer`.
unfoldable pub prepare_remote_batch :
    String → Answer → Answer → ConnectedPair → Prepared × ConnectedPair
unfolding is_member
prepare_remote_batch codec a b s =
    if is_member codec codecs_list
    then (if ltb 0 s.there.running
        then (if s.there.codec ==s codec then prepare_both codec a b s else (busy, s))
        else prepare_both codec a b s)
    else (not_allowed, s)

-- A batch's `release`, which does nothing the second time.
unfoldable pub release_batch : ℕ → PairBatches → PairBatches
release_batch i s = elim (get_elem? s.batches i) [
  | none ↦ s
  | some b ↦ if b.released then s else record s {
    running = s.running - 1;
    batches = set s.batches i (record b { released = true });
  }
]

-- `registrationSide`
pub record RegistrationSide : Type 0 where
  pub registered : ℕ
  pub failed : ℕ
  pub total : ℕ

unfoldable pub update_side : ℕ → ℕ → ℕ → Option RegistrationSide → RegistrationSide
update_side registered failed total side =
    let now : RegistrationSide = record {
      registered = registered;
      failed = failed;
      total = total;
    } in
    elim side [
      | none ↦ now
      | some sd ↦ if leb (sd.registered + sd.failed) (registered + failed) then now else sd
    ]
