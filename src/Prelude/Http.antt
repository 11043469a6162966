-- ===== src/Prelude/Http.antt =====
-- What a handler sees of a request's header: absent, not visible ASCII, or its bytes.
use clotho.Prelude.Bytes.{Bytes}

pub data Header : Type 0 where
  absent not_ascii : Header
  value : Bytes → Header
