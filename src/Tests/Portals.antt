-- ===== src/Tests/Portals.antt =====
-- Walks through the pages of a portal, and the answers of Open-Meteo.
use urban_ops_intelligence_p.Prelude.{◌≡◌, refl, none, arith, stop, yield_from}
use urban_ops_intelligence_p.Socrata.{Session, fetch_all_paginated}
use urban_ops_intelligence_p.Socrata.Pages.{fetch_all_paginated-table}
use urban_ops_intelligence_p.Tests.Data.{busy_first, two_records}

abbrev session : Session
session = busy_first two_records

fetch_all_paginated-table_example :
    fetch_all_paginated session 3 1 none none ≡ yield_from two_records stop
fetch_all_paginated-table_example =
    fetch_all_paginated-table session 3 1 none none two_records (omega arith) (λ offset. refl)
      (omega arith)
