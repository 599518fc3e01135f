-- ===== src/Common/Running.antt =====
-- What a test by evaluation has to see through.
use native.Mathlib.Decide.{ℕ_discrete}
use online_seller_control_hu.Common.Lists.{unique_from}
use online_seller_control_hu.Common.Texts.{text_discrete, trim}
use online_seller_control_hu.Common.Dicts.{get, set, delete}
use online_seller_control_hu.Common.Sorting.{insert, sort}
use online_seller_control_hu.Common.Groups.{group_by}
use online_seller_control_hu.Common.Indexes.{index_by}
use online_seller_control_hu.Common.Schemas.{parse}

unfoldable pub running : Unit {0}
unfolding ℕ_discrete unique_from text_discrete trim get set delete insert sort group_by index_by
    parse
running = tt
