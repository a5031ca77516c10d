-- ===== src/Vb.antt =====
-- The verbosity terms of src/vb.c: their table, and the mask of the comma-separated list that the property
-- Verbosity holds. A mask is a `long`; it stands here as the test of its bits.
pub mod Mask
pub mod State
pub mod Bits
mod Tests
use audited_objects.Prelude.{ℕ, List, [], ◌∷◌, Bytes, codes}

-- VBFLAG_PRIVATE and VBFLAG_PUBLIC
abbrev pub vbflag_private : ℕ
vbflag_private = 0

abbrev pub vbflag_public : ℕ
vbflag_public = 1

-- A row of the table.
pub record VbRow : Type 0 where
  pub vb_name : Bytes
  pub vb_flags : ℕ
  pub vb_desc : Bytes

abbrev row : Bytes → ℕ → Bytes → VbRow
row name flags desc = record { vb_name = name; vb_flags = flags; vb_desc = desc }

-- The table without its last row, which has no name.
unfoldable pub vbtab : List VbRow
vbtab =
    row (codes "STD") vbflag_public (codes "Default verbosity ({UP,DOWN}LOADING messages)")
    ∷ row (codes "TMP") vbflag_private (codes "Undefined: temporary bit for debug work")
    ∷ row (codes "AG") vbflag_private (codes "Show details of aggregation processing")
    ∷ row (codes "CA") vbflag_private (codes "Show details of cmdaction processing")
    ∷ row (codes "CURL") vbflag_private (codes "Show libcurl activities")
    ∷ row (codes "EXEC") vbflag_public (codes "Show child processes as they are executed")
    ∷ row (codes "HTTP") vbflag_public (codes "Show headers of all HTTP transactions")
    ∷ row (codes "MON") vbflag_private (codes "Show each raw audit line as delivered to monitor")
    ∷ row (codes "PA") vbflag_private (codes "Show details of pathaction processing")
    ∷ row (codes "SHOP") vbflag_public (codes "Show shopping activities")
    ∷ row (codes "TIME") vbflag_private (codes "Show HTTP transaction times")
    ∷ row (codes "URL") vbflag_public (codes "Show just the URLs of HTTP transactions")
    ∷ row (codes "WHY") vbflag_private (codes "Show the reason a candidate PTX didn't match")
    ∷ row (codes "RE") vbflag_private (codes "Show what's going on within the RE subsystem")
    ∷ row (codes "MAP") vbflag_private (codes "Show file map/unmap activity")
    ∷ row (codes "UP") vbflag_private (codes "Show what's going on within the uploading subsystem")
    ∷ row (codes "REC") vbflag_private
        (codes "Report each time the auditor calls the file-access-reporting function")
    ∷ []
