-- ===== src/ContentStore/RoundTrip.antt =====
-- What was inserted into the content store is what `get` returns.
use rns_icn.Prelude.{nat_eq, list_eq}
use rns_icn.Name
use rns_icn.Name.{Name}
use rns_icn.Packet.Data.{Data}
use rns_icn.ContentStore.{ContentStore}
