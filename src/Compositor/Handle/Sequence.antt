-- ===== src/Compositor/Handle/Sequence.antt =====
-- compositor-rs/src/main.rs: the requests of a client one after the other.
use fundroid.Prelude.{◌≡◌, none, some, List, [], ◌∷◌, arith}
use fundroid.Compositor.{Compositor, Kernel}
use fundroid.Compositor.Handle.{Request, handle, dispatch_clients}

pub dispatch_next :
    (k : Kernel) (r : Request) (rs : List Request) (c d : Compositor)
    → handle k r c ≡ some d
    → dispatch_clients k (r ∷ rs) c ≡ dispatch_clients k rs d
unfolding dispatch_clients
dispatch_next k r rs c d e = ground (arith, e)

pub dispatch_crash :
    (k : Kernel) (r : Request) (rs : List Request) (c : Compositor)
    → handle k r c ≡ none
    → dispatch_clients k (r ∷ rs) c ≡ none
unfolding dispatch_clients
dispatch_crash k r rs c e = ground (arith, e)

pub dispatch_last :
    (k : Kernel) (r : Request) (c d : Compositor)
    → handle k r c ≡ some d
    → dispatch_clients k (r ∷ []) c ≡ some d
unfolding dispatch_clients
dispatch_last k r c d e = ground (arith, e)
