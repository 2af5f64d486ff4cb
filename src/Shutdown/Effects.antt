-- ===== src/Shutdown/Effects.antt =====
-- src/utils/gracefulShutdown.ts: what is read off lists of effects, put together.
use live_r.Base.{ℕ, ◌+◌, ◌≤◌, ◌≡◌, refl, ap, List, [], ◌∷◌, ◌++◌, map, arith}
use live_r.Base.Text.{Str}
use live_r.Types.{Effect, Ws}
use live_r.Connections.{send_each, end_each}
use live_r.Shutdown.{ShutdownEffect, on_connections, quits, exits}
use live_r.Shutdown.Trace.{exits_in, quits_in, stage, Rises}

pub exits_in-append :
    (es fs : List ShutdownEffect) → exits_in (es ++ fs) ≡ exits_in es + exits_in fs
exits_in-append [] fs = omega arith
exits_in-append (exits code ∷ es) fs = omega (arith, exits_in-append es fs)
exits_in-append (e ∷ es) fs = exits_in-append es fs

pub quits_in-append :
    (es fs : List ShutdownEffect) → quits_in (es ++ fs) ≡ quits_in es ++ quits_in fs
quits_in-append [] fs = refl
quits_in-append (quits client ∷ es) fs = ap (λ cs. client ∷ cs) (quits_in-append es fs)
quits_in-append (e ∷ es) fs = quits_in-append es fs

pub Rises-weaken :
    (lo lo' hi : ℕ) (es : List ShutdownEffect) → lo ≤ lo' → Rises lo' hi es → Rises lo hi es
Rises-weaken lo lo' hi [] le r = omega (arith, le, r)
Rises-weaken lo lo' hi (e ∷ es) le r = (omega (arith, le, r.0), r.1)

pub append-Rises :
    (lo mid hi : ℕ) (es fs : List ShutdownEffect)
    → Rises lo mid es
    → Rises mid hi fs
    → Rises lo hi (es ++ fs)
append-Rises lo mid hi [] fs r q = Rises-weaken lo mid hi fs r q
append-Rises lo mid hi (e ∷ es) fs r q = (r.0, append-Rises (stage e) mid hi es fs r.1 q)

pub calls_exits :
    (es : List Effect) (fs : List ShutdownEffect)
    → exits_in (map on_connections es ++ fs) ≡ exits_in fs
calls_exits [] fs = refl
calls_exits (e ∷ es) fs = calls_exits es fs

pub calls_quits :
    (es : List Effect) (fs : List ShutdownEffect)
    → quits_in (map on_connections es ++ fs) ≡ quits_in fs
calls_quits [] fs = refl
calls_quits (e ∷ es) fs = calls_quits es fs

pub sends-Rises :
    (lo hi : ℕ) (payload : Str) (vs : List Ws) (n : ℕ) (fs : List ShutdownEffect)
    → lo ≤ 1
    → Rises 1 hi fs
    → Rises lo hi (map on_connections (send_each payload vs n).0 ++ fs)
unfolding send_each
sends-Rises lo hi payload [] n fs le r = Rises-weaken lo 1 hi fs le r
sends-Rises lo hi payload (v ∷ vs) n fs le r =
    (le, sends-Rises 1 hi payload vs (n + 1) fs (omega arith) r)

pub ends-Rises :
    (lo hi code : ℕ) (message : Str) (vs : List Ws) (fs : List ShutdownEffect)
    → lo ≤ 3
    → Rises 3 hi fs
    → Rises lo hi (map on_connections (end_each code message vs) ++ fs)
unfolding end_each
ends-Rises lo hi code message [] fs le r = Rises-weaken lo 3 hi fs le r
ends-Rises lo hi code message (v ∷ vs) fs le r =
    (le, ends-Rises 3 hi code message vs fs (omega arith) r)
