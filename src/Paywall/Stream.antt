-- ===== src/Paywall/Stream.antt =====
-- asp/paywall.py: `_drain` and `_replay`. The body of a request is a stream of messages that can be
-- read once; the gate reads it and hands it on.
use merita.Prelude.{
  ℕ, Bool, true, false, ◌≡◌, refl, List, [], ◌∷◌, ◌++◌, append_assoc, if◌then◌else◌,
}

-- a part of the body and whether more follow, or any other event
pub data Message : Type 0 where
  request : List ℕ → Bool → Message
  disconnect : Message

-- `_drain`: the body, and the messages that are still to come. Where the stream waits for a message
-- that never comes, so does the code.
unfoldable pub drain : List Message → List ℕ × List Message
drain [] = ([], [])
drain (disconnect ∷ rest) = ([], rest)
drain (request chunk more ∷ rest) =
    let (body, later) = drain rest in if more then (chunk ++ body, later) else (chunk, rest)

-- `_replay`: the buffered body in one message, then the original stream
unfoldable pub replay : List ℕ → List Message → List Message
replay body original = request body false ∷ original

-- the body of a stream of parts
abbrev pub flat : List (List ℕ) → List ℕ
flat [] = []
flat (c ∷ cs) = c ++ flat cs

abbrev pub parts : List (List ℕ) → List ℕ → List Message
parts [] last = request last false ∷ []
parts (c ∷ cs) last = request c true ∷ parts cs last

drain-parts :
    (chunks : List (List ℕ)) (last : List ℕ) (next : List Message)
    → drain (parts chunks last ++ next) ≡ (flat chunks ++ last, next)
unfolding drain
drain-parts [] last next = refl
drain-parts (c ∷ cs) last next = rw (drain-parts cs last next, append_assoc c (flat cs) last)

-- A body that arrives in any number of parts is replayed whole in one message, and behind it stands
-- exactly what the client sends next: no disconnect is invented, and none is lost.
pub replay-parts :
    (chunks : List (List ℕ)) (last : List ℕ) (next : List Message)
    → let (body, later) = drain (parts chunks last ++ next) in
      replay body later ≡ request (flat chunks ++ last) false ∷ next
unfolding replay
replay-parts chunks last next = rw drain-parts
