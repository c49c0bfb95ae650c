-- ===== src/Ftp/Tests.antt =====
-- pkg/ftpserver at concrete inputs.
use viking_ftpd.Prelude.{◌≡◌, refl, true, false, [], ◌∷◌, codes, equal, All}
use viking_ftpd.Paths.{is_abs, split_path, dot_dot}
use viking_ftpd.Ftp.Client.{resolve_path}
use viking_ftpd.Ftp.Names.{meant, resolve_path-meant}
use viking_ftpd.Ftp.Driver.{client_connected}
use viking_ftpd.Ftp.Counters.{
  Clients, new_clients, Reachable, begin, then_step, connect, disconnect, IsCounted,
  reachable_clients-IsCounted,
}

resolve_path-meant_example :
    (is_abs (resolve_path (codes "/players/frogo") (codes "../x")) ≡ true)
    × (split_path (resolve_path (codes "/players/frogo") (codes "../x"))
        ≡ meant (codes "/players/frogo") (codes "../x"))
    × All
        (λ x. equal x dot_dot ≡ false)
        (split_path (resolve_path (codes "/players/frogo") (codes "../x")))
unfolding is_abs
resolve_path-meant_example = resolve_path-meant (codes "/players/frogo") (codes "../x") refl

-- one client too many is refused, and the first one leaves
left : (c : Clients) × Reachable 1 9 c
unfolding client_connected
left = (
  _,
  then_step (then_step (then_step begin (connect (new_clients 9))) (connect _))
      (disconnect _ (false ∷ []) [] true refl),
)

reachable_clients-IsCounted_example : IsCounted 1 9 left.0
reachable_clients-IsCounted_example = reachable_clients-IsCounted 1 9 left.1
