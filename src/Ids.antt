-- ===== src/Ids.antt =====
-- src/utils/idGenerator.ts. What nanoid answers is a parameter.
use live_r.Base.{◌≡◌, ◌++◌, append_cancel, ◌∙◌, sym}
use live_r.Base.Text.{Str, codes}
use live_r.Types.{Ws, Heap}
use live_r.Connections.Invariant.{DistinctIds}

-- `conn_${nanoid(16)}`
unfoldable pub generate_connection_id : Str → Str
generate_connection_id nanoid = codes "conn_" ++ nanoid

-- `inst_${nanoid(8)}`
unfoldable pub generate_instance_id : Str → Str
generate_instance_id nanoid = codes "inst_" ++ nanoid

-- Sockets whose ids were made of different answers of nanoid have different ids.
pub generated-DistinctIds :
    (h : Heap) (nanoid : Ws → Str)
    → ((w : Ws) → (h w).connection_id ≡ generate_connection_id (nanoid w))
    → ((v w : Ws) → nanoid v ≡ nanoid w → v ≡ w)
    → DistinctIds h
unfolding generate_connection_id
generated-DistinctIds h nanoid made unique v w e =
    unique v w (append_cancel (codes "conn_") (sym (made v) ∙ e ∙ made w))
