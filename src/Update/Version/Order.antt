-- ===== src/Update/Version/Order.antt =====
-- `Less` is a strict total order.
use virmill.Prelude.{◌-◌, ◌^◌, ◌<◌, true, false, ◌≡◌, arith}
use virmill.Update.Version.{Version, less}

pub less_irrefl : (v : Version) → less v v ≡ false
unfolding less
less_irrefl v = ground arith

-- `Less` is transitive.
pub less_trans : (u v w : Version) → less u v ≡ true → less v w ≡ true → less u w ≡ true
unfolding less
less_trans u v w h k = ground arith

-- Of two versions whose betas are below the rank of a release, one is less than the other or they
-- are the same.
pub less_total :
    (v w : Version)
    → v.beta < 2 ^ 63 - 1
    → w.beta < 2 ^ 63 - 1
    → less v w ≡ false
    → less w v ≡ false
    → v ≡ w
unfolding less
less_total v w bv bw h k =
    let a : v.major ≡ w.major = ground arith in
    let b : v.minor ≡ w.minor = ground arith in
    let c : v.patch ≡ w.patch = ground arith in let d : v.beta ≡ w.beta = ground arith in cc
