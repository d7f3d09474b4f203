-- ===== src/Tests/Gatherings.antt =====
-- The theorems on gatherings at a concrete state.
use be.Prelude.{◌≡◌, refl, arith, none, some, [], ◌∷◌}
use mathlib.Core.List.{Memᴰ}
use be.Store.{GatheringType, err, unprocessable_entity}
use be.Gatherings.Entities.{GatheringPrototype, UpdateInput}
use be.Gatherings.Service.{create, delete}
use be.Gatherings.Hosting.{delete_gathering-verdict}
use be.Gatherings.Creation.Whole.{Created, create_gathering-Created}
use be.Tests.Tables.{tables}
use be.Tests.States.{small, meeting}

abbrev dinner : GatheringPrototype
dinner = record {
  host_user_id = 1;
  name = "dinner";
  description = "";
  type = GatheringType.friend;
  group_id = none;
  gathering_date = 9000;
  address = "";
  invitation_image_url = "";
}

create_gathering-Created_example :
    Created dinner (some (2 ∷ [])) 2 small (create dinner (some (2 ∷ [])) small)
create_gathering-Created_example = create_gathering-Created dinner (some (2 ∷ [])) 2 small

abbrev later : UpdateInput
later = record { name = "supper"; description = ""; gathering_date = 9000; address = "" }

delete_gathering-verdict_example : delete 31 1 small ≡ (err unprocessable_entity, small)
delete_gathering-verdict_example =
    delete_gathering-verdict 31 1 (meeting 31 (some 10)) small (ground arith)
      (Memᴰ.tail (Memᴰ.head refl)) refl
