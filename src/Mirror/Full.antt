-- ===== src/Mirror/Full.antt =====
-- server/include/WorldSerializer.hpp and client/src/WorldModel.cpp: the packet of a small chunk in a snapshot.
use multilife.Prelude.{
  ℕ, zero, suc, ◌≡◌, ◌≤◌, min, refl, ◌∙◌, ap, true, if◌then◌else◌, List, [], ◌∷◌, map, take, drop,
  length, each, arith,
}
use multilife.Prelude.Int.{ℤ}
use multilife.Types.{ChunkCoord, coord_eq, chunk_coord_eq}
use multilife.World.Coordinates.{chunk_at}
use multilife.Wire.{flag_full, max_cells_per_packet}
use multilife.Serializer.{Entry}
use multilife.Serializer.Payload.{groups, chunk_packets, packets_of}
use multilife.Client.WorldModel.{WorldModel, owner_at}
use multilife.Client.WorldModel.Updates.{owner_after, owner_at-applied, in_chunk-coord_eq}
use multilife.Mirror.Updates.{told, apply_packet, apply_packets, at}

take-all : (es : List Entry) (n : ℕ) → length es ≤ n → take n es ≡ es
take-all [] zero h = refl
take-all [] (suc n) h = refl
take-all (e ∷ es) zero h = absurd (omega arith)
take-all (e ∷ es) (suc n) h = ap (λ (l : List Entry). e ∷ l) (take-all es n (omega arith))

drop-all : (es : List Entry) (n : ℕ) → length es ≤ n → drop n es ≡ []
drop-all [] zero h = refl
drop-all [] (suc n) h = refl
drop-all (e ∷ es) zero h = absurd (omega arith)
drop-all (e ∷ es) (suc n) h = drop-all es n (omega arith)

groups_nothing : (fuel : ℕ) → groups fuel [] ≡ []
unfolding groups
groups_nothing zero = refl
groups_nothing (suc fuel) = refl

-- Up to 125 entries make one packet.
one_group :
    (e : Entry) (es : List Entry)
    → length (e ∷ es) ≤ 125
    → groups (length (e ∷ es)) (e ∷ es) ≡ (e ∷ es) ∷ []
unfolding groups
one_group e es h =
    let size = min max_cells_per_packet (length (e ∷ es)) in
    let enough : length (e ∷ es) ≤ size = omega arith in
    rw (take-all (e ∷ es) size enough, drop-all (e ∷ es) size enough, groups_nothing (length es))

pub owner_at-full :
    (n : ℕ) (k : ChunkCoord) (e : Entry) (es : List Entry) (w : WorldModel) (x y : ℤ)
    → length (e ∷ es) ≤ 125
    → owner_at (apply_packets (chunk_packets n flag_full k (e ∷ es)) w) x y
      ≡ owner_after k.x k.y
          (map told (e ∷ es))
          (at x y)
          (if coord_eq (chunk_at x y) k then 0 else owner_at w x y)
unfolding packets_of apply_packets apply_packet each
owner_at-full n k e es w x y h =
    rw (one_group e es h)
      (owner_at-applied n true k.x k.y (map told (e ∷ es)) w x y ∙ rw (in_chunk-coord_eq k x y))
