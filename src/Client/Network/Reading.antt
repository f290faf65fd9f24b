-- ===== src/Client/Network/Reading.antt =====
-- client/src/GameNetworkClient.cpp, `onTcpReadyRead`, with client/src/ClientParsers.cpp: the stream of
-- statistics, in whatever pieces it arrives.
use multilife.Prelude.{
  ℕ, zero, suc, ◌+◌, ◌≤◌, ◌<◌, ◌≡◌, sym, ◌∙◌, ap, List, [], ◌∷◌, ◌++◌, length, length-append,
  append_assoc, Option, none, some, arith, nat_eq,
}
use multilife.Client.Parsers.{ParsedServerStatsMessage, try_parse_server_stats_message}
use multilife.Client.Network.{NetworkClient, Effect, stats_updated, read_stats, on_tcp_ready_read}
use multilife.Client.Parsers.Stream.{parse, waits, reads, outcome}

read_stats-waits :
    (n : ℕ) (b rest : List ℕ) → parse b ≡ (none, rest) → read_stats (suc n) b ≡ (rest, [])
unfolding read_stats
read_stats-waits n b rest e =
    let f = ap (λ (r : Option ParsedServerStatsMessage × List ℕ). r.0) e in
    let g = ap (λ (r : Option ParsedServerStatsMessage × List ℕ). r.1) e in rw (f, read_stats, g)

announced : ParsedServerStatsMessage → Effect
announced msg = stats_updated msg.generation msg.players

read_stats-reads :
    (n : ℕ) (b : List ℕ) (msg : ParsedServerStatsMessage) (rest : List ℕ)
    → parse b ≡ (some msg, rest)
    → read_stats (suc n) b ≡ ((read_stats n rest).0, announced msg ∷ (read_stats n rest).1)
unfolding read_stats announced
read_stats-reads n b msg rest e =
    let f = ap (λ (r : Option ParsedServerStatsMessage × List ℕ). r.0) e in
    let g = ap (λ (r : Option ParsedServerStatsMessage × List ℕ). r.1) e in rw (f, read_stats, g)

-- More fuel than bytes is enough, and more changes nothing.
read_stats-fuel :
    (n k : ℕ) (b : List ℕ) → length b < n → length b < k → read_stats n b ≡ read_stats k b
read_stats-fuel zero k b h l = absurd (omega arith)
read_stats-fuel (suc n) zero b h l = absurd (omega arith)
read_stats-fuel (suc n) (suc k) b h l = elim (outcome b) [
  | waits rest e f m more ↦ read_stats-waits n b rest e ∙ sym (read_stats-waits k b rest e)
  | reads msg rest e m more ↦
      read_stats-reads n b msg rest e
      ∙ (ap (λ (r : List ℕ × List Effect). (r.0, announced msg ∷ r.1))
            (read_stats-fuel n k rest (omega (arith, h, m)) (omega (arith, l, m)))
          ∙ sym (read_stats-reads k b msg rest e))
]

read_stats-length : (n : ℕ) (b : List ℕ) → length (read_stats n b).0 ≤ length b
unfolding read_stats
read_stats-length zero b = omega arith
read_stats-length (suc n) b = elim (outcome b) [
  | waits rest e f m more ↦ rw (read_stats-waits n b rest e) m
  | reads msg rest e m more ↦
      rw (read_stats-reads n b msg rest e) (omega (arith, m, read_stats-length n rest))
]

read_stats-settled :
    (n : ℕ) (b : List ℕ) → length b < n → parse (read_stats n b).0 ≡ (none, (read_stats n b).0)
read_stats-settled zero b h = absurd (omega arith)
read_stats-settled (suc n) b h = elim (outcome b) [
  | waits rest e f m more ↦ rw (read_stats-waits n b rest e) f
  | reads msg rest e m more ↦
      rw (read_stats-reads n b msg rest e) (read_stats-settled n rest (omega (arith, h, m)))
]

shorter :
    {k : ℕ} (b rest x : List ℕ)
    → length rest < length b
    → length (b ++ x) < suc k
    → length (rest ++ x) < k
shorter b rest x m l = omega (arith, m, l, length-append b x, length-append rest x)

-- A round depends on what the parser says only.
read_stats-same :
    (k : ℕ) (a b : List ℕ) → parse a ≡ parse b → read_stats (suc k) a ≡ read_stats (suc k) b
read_stats-same k a b same = elim (outcome b) [
  | waits rest e f m more ↦ read_stats-waits k a rest (same ∙ e) ∙ sym (read_stats-waits k b rest e)
  | reads msg rest e m more ↦
      read_stats-reads k a msg rest (same ∙ e) ∙ sym (read_stats-reads k b msg rest e)
]

-- What follows the messages of a first piece.
then_more : List Effect → List ℕ × List Effect → List ℕ × List Effect
then_more es r = (r.0, es ++ r.1)

read_stats-append :
    (n k : ℕ) (b x : List ℕ)
    → length b < n
    → length (b ++ x) < k
    → read_stats k (b ++ x) ≡ then_more (read_stats n b).1 (read_stats k ((read_stats n b).0 ++ x))
unfolding then_more
read_stats-append zero k b x h l = absurd (omega arith)
read_stats-append (suc n) zero b x h l = absurd (omega arith)
read_stats-append (suc n) (suc k) b x h l = elim (outcome b) [
  | waits rest e f m more ↦
      rw (read_stats-waits n b rest e) (read_stats-same k (b ++ x) (rest ++ x) (more x))
  | reads msg rest e m more ↦ rw (read_stats-reads n b msg rest e) (
      read_stats-reads k (b ++ x) msg (rest ++ x) (more x)
      ∙ ap (λ (r : List ℕ × List Effect). (r.0, announced msg ∷ r.1))
          (read_stats-append n k rest x (omega (arith, h, m)) (shorter b rest x m l)
            ∙ ap (then_more (read_stats n rest).1) (
                read_stats-fuel k (suc k) ((read_stats n rest).0 ++ x)
                  (omega (
                    arith,
                    read_stats-length n rest,
                    shorter b rest x m l,
                    length-append (read_stats n rest).0 x,
                    length-append rest x,
                  ))
                  (omega (
                    arith,
                    read_stats-length n rest,
                    shorter b rest x m l,
                    length-append (read_stats n rest).0 x,
                    length-append rest x,
                  )))))
]

-- Two pieces one after the other, and both at once.
read_stats-pieces :
    (b ys : List ℕ)
    → then_more (read_stats (length b + 1) b).1 (
        read_stats
          (length ((read_stats (length b + 1) b).0 ++ ys) + 1)
          ((read_stats (length b + 1) b).0 ++ ys))
      ≡ read_stats (length (b ++ ys) + 1) (b ++ ys)
read_stats-pieces b ys =
    let first = read_stats (length b + 1) b in
    let l = read_stats-length (length b + 1) b in
    ap (then_more first.1) (
      read_stats-fuel (length (first.0 ++ ys) + 1) (length (b ++ ys) + 1) (first.0 ++ ys)
        (omega arith) (omega (arith, l, length-append first.0 ys, length-append b ys)))
    ∙ sym (read_stats-append (length b + 1) (length (b ++ ys) + 1) b ys (omega arith) (omega arith))

-- However TCP cuts the stream: the statistics that are announced when two pieces arrive one after the
-- other, and the bytes that are kept, are those of the two pieces arriving at once.
pub on_tcp_ready_read-append :
    (xs ys : List ℕ) (c : NetworkClient)
    → ((on_tcp_ready_read ys (on_tcp_ready_read xs c).0).0 ≡ (on_tcp_ready_read (xs ++ ys) c).0)
      × ((on_tcp_ready_read xs c).1 ++ (on_tcp_ready_read ys (on_tcp_ready_read xs c).0).1
          ≡ (on_tcp_ready_read (xs ++ ys) c).1)
unfolding on_tcp_ready_read then_more
on_tcp_ready_read-append xs ys c =
    let pieces = read_stats-pieces (c.tcp_read_buffer ++ xs) ys in
    let whole = append_assoc c.tcp_read_buffer xs ys in
    rw (← whole) (
      ap (λ (r : List ℕ × List Effect). record c { tcp_read_buffer = r.0 }) pieces,
      ap (λ (r : List ℕ × List Effect). r.1) pieces,
    )

-- After the handler nothing that is kept is a whole message, and no byte that is kept is one that the
-- parser would drop: its loop ends because there is nothing left to read, not for want of fuel.
pub on_tcp_ready_read-settled :
    (xs : List ℕ) (c : NetworkClient)
    → try_parse_server_stats_message (on_tcp_ready_read xs c).0.tcp_read_buffer
      ≡ (none, (on_tcp_ready_read xs c).0.tcp_read_buffer)
unfolding on_tcp_ready_read
on_tcp_ready_read-settled xs c =
    read_stats-settled (length (c.tcp_read_buffer ++ xs) + 1) (c.tcp_read_buffer ++ xs)
      (omega arith)
