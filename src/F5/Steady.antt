-- ===== src/F5/Steady.antt =====
-- An update of a device that is up to date only reads it.
use interlook.Prelude.{◌^◌, ◌<◌, ◌≡◌, refl, String, true, Option, some, All}
use interlook.Strconv.{contains}
use interlook.Comm.{Message, Target}
use interlook.Calls.{ok}
use interlook.F5.{Node, Pool, VirtualServer, F5Cli, BigIp}
use interlook.F5.Helper.{add_partition_to_name, update_members, upsert_pool}
use interlook.F5.Handlers.{destination_of, update_vs, handle_vs_update}
use interlook.F5.Members.{listed, IsFound, pool_members_needs_update-listed}

module _ {W : Type 0} (cli : F5Cli W) (f5 : BigIp) (msg : Message) (pool : Pool) (folder : String)
    (found : Target → Option Node) (w2 w3 : W)
    (members : cli.pool_members pool.full_path w2
      ≡ (w3, ok (listed f5 msg folder found msg.service.targets)))
    (nodes : IsFound found) (small : All (λ t. t.port < 2 ^ 32) msg.service.targets) where
  update_members-steady : update_members cli f5 pool msg w2 ≡ (w3, ok tt)
  unfolding update_members
  update_members-steady =
      rw (pool_members_needs_update-listed cli f5 pool msg folder found w2 w3 members nodes small)
        refl

  upsert_pool-steady :
      (w1 : W)
      → cli.get_pool (add_partition_to_name f5 msg.service.name) w1 ≡ (w2, ok (some pool))
      → upsert_pool cli f5 msg w1 ≡ (w3, ok tt)
  unfolding upsert_pool
  upsert_pool-steady w1 e = rw (e, update_members-steady) refl

  -- If the F5 device shows the virtual server of the service with a destination that contains
  -- the wanted one, the pool of the service, and in it, under a common path, the members that
  -- the extension makes from the targets of the message, with ports of fewer than 32 bits and
  -- the nodes found by their addresses, then an update of the virtual server makes these three
  -- reads, writes nothing, and answers with the message as it is.
  pub handle_vs_update-steady :
      (vs : VirtualServer) (w w1 : W)
      → cli.get_virtual_server (add_partition_to_name f5 msg.service.name) w ≡ (w1, ok (some vs))
      → contains vs.destination (destination_of f5 msg) ≡ true
      → cli.get_pool (add_partition_to_name f5 msg.service.name) w1 ≡ (w2, ok (some pool))
      → handle_vs_update cli f5 msg w ≡ (w3, msg)
  unfolding handle_vs_update update_vs
  handle_vs_update-steady vs w w1 shown same held =
      rw (shown, upsert_pool-steady w1 held, same) refl
