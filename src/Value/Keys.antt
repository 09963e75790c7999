-- ===== src/Value/Keys.antt =====
-- Fields as a finite map, and their order.
use ovn_fabric.Prelude.{String, ◌≡◌, refl, some, arith, eq_iff, str_eq, if◌then◌else◌}
use ovn_fabric.Value.{Value, Fields, end, field, get, put}

pub get-put :
    (j k : String) (v : Value) (fs : Fields)
    → get j (put k v fs) ≡ (if str_eq k j then some v else get j fs)
unfolding get put
get-put j k v end = refl
get-put j k v (field i w fs) = ground (arith, eq_iff k j, eq_iff i k, eq_iff i j, get-put j k v fs)
