-- ===== src/Reloader/Examples.antt =====
-- A configuration without a deployment, in a pod of the deployment shop-api.
use golibs.Prelude.{none, [], ◌∷◌, ◌≡◌, refl, codes, arith}
use golibs.Exec.{ok}
use golibs.Reloader.{
  Config, Surroundings, Client, trim_left, trim_right, is_space, config_for, apply_defaults,
}
use golibs.Reloader.Names.{config_for-name}

abbrev cfg : Config
cfg = record {
  namespace = codes "web";
  deployment = [];
  files = codes "/tls.crt" ∷ codes "/tls.key" ∷ [];
  interval = 0;
}

abbrev pod : Surroundings
pod = record {
  namespace_file = ok (codes "web");
  pod_name = codes " ";
  hostname = codes "shop-api-6cbc-kdmnx\n";
}

abbrev willing : Client (Unit {0})
willing = record {
  get = λ ns n. ok (record { annotations = []; rest = tt });
  update = λ ns d dry_run. none;
}

config_for-name_example :
    config_for cfg pod ≡ ok (record (apply_defaults cfg) { deployment = codes "shop-api" })
unfolding trim_left trim_right is_space
config_for-name_example =
    config_for-name cfg pod (codes "shop-api") (codes "6cbc") (codes "kdmnx") refl refl refl refl
      refl refl (omega arith, (omega arith, (omega arith, (omega arith, tt))))
      (omega arith, (omega arith, (omega arith, (omega arith, (omega arith, tt)))))
