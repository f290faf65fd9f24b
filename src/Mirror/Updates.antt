-- ===== src/Mirror/Updates.antt =====
-- client/src/WorldModel.cpp: the packets of a delta, applied one after the other, as one list of updates for
-- each chunk.
use multilife.Prelude.{
  ℕ, ◌≡◌, refl, sym, ◌∙◌, ap, false, inl, inr, Bool-cases, ◌==◌, List, [], ◌∷◌, ◌++◌, map, length,
  each, All, In, arith,
}
use multilife.Prelude.Int.{ℤ}
use multilife.Types.{ChunkCoord}
use multilife.Wire.{flag_delta, flag_full}
use multilife.Serializer.{Entry}
use multilife.Serializer.Packets.{update_of}
use multilife.Serializer.Payload.{Packet, packets_of, groups, concat, concat-groups, chunk_packets}
use multilife.Client.Network.{alive_cell}
use multilife.Client.WorldModel.{
  CellKey, key_eq, key_eq_iff, AliveCell, WorldModel, owner_at, apply_update, key_of,
}
use multilife.Client.WorldModel.Updates.{owner_after, owner_at-applied}

-- What the client makes of an entry.
abbrev pub told : Entry → AliveCell
told e = alive_cell (update_of e)

-- What the client makes of a packet.
unfoldable pub apply_packet : Packet → WorldModel → WorldModel
apply_packet p w =
    apply_update p.seq_num (p.flags == flag_full) p.coord.x p.coord.y (map told p.entries) w

unfoldable pub apply_packets : List Packet → WorldModel → WorldModel
apply_packets ps w = each ps apply_packet w

pub apply_packets-append :
    (ps qs : List Packet) (w : WorldModel)
    → apply_packets (ps ++ qs) w ≡ apply_packets qs (apply_packets ps w)
unfolding apply_packets each
apply_packets-append [] qs w = refl
apply_packets-append (p ∷ ps) qs w = apply_packets-append ps qs (apply_packet p w)

map-append_told : (es fs : List Entry) → map told (es ++ fs) ≡ map told es ++ map told fs
map-append_told [] fs = refl
map-append_told (e ∷ es) fs = rw (map-append_told es fs)

module _ (chunk_x chunk_y : ℤ) (key : CellKey) where
  owner_after-append :
      (us vs : List AliveCell) (o : ℕ)
      → owner_after chunk_x chunk_y (us ++ vs) key o
        ≡ owner_after chunk_x chunk_y vs key (owner_after chunk_x chunk_y us key o)
  unfolding owner_after
  owner_after-append [] vs o = refl
  owner_after-append (u ∷ us) vs o = owner_after-append us vs _

  -- Updates that all tell the truth `f` keep it where it is known.
  pub owner_after-kept :
      (f : CellKey → ℕ) (us : List AliveCell) (o : ℕ)
      → All (λ u. u.owner ≡ f (key_of chunk_x chunk_y u)) us
      → o ≡ f key
      → owner_after chunk_x chunk_y us key o ≡ f key
  unfolding owner_after
  owner_after-kept f [] o h e = e
  owner_after-kept f (u ∷ us) o h e = elim (Bool-cases (key_eq (key_of chunk_x chunk_y u) key)) [
    | inl hit ↦
        let q = (key_eq_iff (key_of chunk_x chunk_y u) key).0 hit in
        rw hit (owner_after-kept f us u.owner h.1 (h.0 ∙ ap f q))
    | inr miss ↦ rw miss (owner_after-kept f us o h.1 e)
  ]

  -- One of them that names the cell tells it.
  pub owner_after-told :
      (f : CellKey → ℕ) (us : List AliveCell) (o : ℕ) (v : AliveCell)
      → All (λ u. u.owner ≡ f (key_of chunk_x chunk_y u)) us
      → In v us
      → key_of chunk_x chunk_y v ≡ key
      → owner_after chunk_x chunk_y us key o ≡ f key
  unfolding owner_after
  owner_after-told f [] o v h i e = elim i [ ]
  owner_after-told f (u ∷ us) o v h (inl same) e =
      let q : key_of chunk_x chunk_y u ≡ key = ap (key_of chunk_x chunk_y) (sym same) ∙ e in
      let hit = (key_eq_iff (key_of chunk_x chunk_y u) key).1 q in
      rw hit (owner_after-kept f us u.owner h.1 (h.0 ∙ ap f q))
  owner_after-told f (u ∷ us) o v h (inr i) e = owner_after-told f us _ v h.1 i e

abbrev pub at : ℤ → ℤ → CellKey
at x y = record { x = x; y = y }

owner_at-packets_of :
    (seq_num : ℕ) (k : ChunkCoord) (gs : List (List Entry)) (w : WorldModel) (x y : ℤ)
    → owner_at (apply_packets (packets_of seq_num flag_delta k gs) w) x y
      ≡ owner_after k.x k.y (map told (concat gs)) (at x y) (owner_at w x y)
unfolding packets_of concat apply_packets apply_packet each owner_after
owner_at-packets_of seq_num k [] w x y = refl
owner_at-packets_of seq_num k (g ∷ gs) w x y =
    owner_at-packets_of seq_num k gs _ x y
    ∙ (ap (owner_after k.x k.y (map told (concat gs)) (at x y))
          (owner_at-applied seq_num false k.x k.y (map told g) w x y)
        ∙ (sym (
              owner_after-append k.x k.y (at x y) (map told g) (map told (concat gs))
                (owner_at w x y))
            ∙ ap (λ us. owner_after k.x k.y us (at x y) (owner_at w x y))
                (sym (map-append_told g (concat gs)))))

-- The packets of a chunk, however its entries are shared out.
pub owner_at-chunk_packets :
    (seq_num : ℕ) (k : ChunkCoord) (es : List Entry) (w : WorldModel) (x y : ℤ)
    → owner_at (apply_packets (chunk_packets seq_num flag_delta k es) w) x y
      ≡ owner_after k.x k.y (map told es) (at x y) (owner_at w x y)
owner_at-chunk_packets seq_num k es w x y =
    owner_at-packets_of seq_num k (groups (length es) es) w x y
    ∙ rw (concat-groups (length es) es (omega arith))
