-- ===== src/Runtime/Sends.antt =====
-- Sends that succeed.
use a9_v.Prelude.{ℕ, ◌+◌, ◌≡◌, [], ◌∷◌, ◌++◌, true}
use a9_v.Runtime.{Host, World, Packet, Locks, done, send}

-- The writes succeed from here on.
abbrev pub Delivers : {Value : Type 0} → Host Value → Type 0
Delivers host = (n : ℕ) → host.send_ok n ≡ true

-- The world after a packet has gone out.
abbrev pub sent : Packet → World → World
sent p w = record w { sends = w.sends + 1; out = w.out ++ p ∷ [] }

pub send-sent :
    {Value : Type 0} (host : Host Value) (p : Packet) (l : Locks) (w : World)
    → Delivers host
    → send host p l w ≡ done tt (sent p w)
unfolding send
send-sent host p l w d = rw d
