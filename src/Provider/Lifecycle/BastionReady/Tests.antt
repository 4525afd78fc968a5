-- ===== src/Provider/Lifecycle/BastionReady/Tests.antt =====
-- An Azure Bastion tunnel that is opened.
use terraform_provider_tunne.Base.{◌≡◌, refl, ◌⊎◌, inl, inr, not, true, none, some, [], ◌∷◌, pos}
use terraform_provider_tunne.Errors.{ok}
use terraform_provider_tunne.GoText.{Text, lit, is_empty, text_eq}
use terraform_provider_tunne.Libs.Watch.{other_status}
use terraform_provider_tunne.Libs.Fork.{ForkCalls}
use terraform_provider_tunne.AzureBastion.Config.{
  TunnelConfig, ResourceId, Library, BastionInfo, validate_bastion, discover_bastion,
}
use terraform_provider_tunne.AzureBastion.Tunnel.{start_remote_tunnel, listening, serving}
use terraform_provider_tunne.AzureBastion.Tunnel.Announced.{IsUp}
use terraform_provider_tunne.Provider.{null, value, value_string, value_int64, done}
use terraform_provider_tunne.Provider.AzureBastion.{AzureBastionModel, azure_bastion_config}
use terraform_provider_tunne.Provider.Lifecycle.{bastion_open}
use terraform_provider_tunne.Provider.Lifecycle.BastionReady.{
  Child, effects_of, IsOwnMarker, bastion_open-IsUp,
}

abbrev bastion : ResourceId
bastion = record {
  subscription_id = lit "s";
  resource_group_name = lit "g";
  name = lit "b";
  resource_type = lit "Microsoft.Network/bastionHosts";
}

abbrev library : Library
library = record { parse_resource_id = λ id. ok bastion; is_ip = λ ip. true }

abbrev model : AzureBastionModel
model = record {
  bastion_host_id = value (lit "/subscriptions/s");
  target_resource_id = value (lit "/subscriptions/s/vm");
  target_ip_address = null;
  target_port = value (pos 22);
  local_host = null;
  local_port = value (pos 9000);
}

abbrev calls : TunnelConfig → ForkCalls
calls cfg = record {
  config_json = ok (lit "{}");
  open_file = none;
  mkdir_temp = ok (lit "/tmp/r1");
  ctx_err = none;
  start_pid = ok 42;
  ready = record {
    ticks = [];
    last = record {
      process = record {
        new_process = none;
        status = ok (other_status ∷ []);
        is_running = ok true;
      };
      stat = none;
    };
    ctx_err = none;
  };
  environ = [];
  temp_dir = lit "/tmp";
  executable = lit "provider";
  parent_pid = pos 7;
}

abbrev info : BastionInfo
info = record {
  dns_name = lit "bst.example.com";
  sku = lit "Standard";
  enable_tunneling = true;
  enable_ip_connect = true;
}

-- A child whose calls all succeed; the fork sees it when it serves.
abbrev up : TunnelConfig → Child
up cfg = record {
  calls = record {
    watch = none;
    credential = none;
    client = none;
    response = ok (record {
      sku_name = some (some (lit "Standard"));
      properties = some (record {
        dns = some (lit "bst.example.com");
        tunneling = some true;
        ip_connect = some true;
      });
    });
    session = none;
    listen_error = none;
    signal_error = none;
    serve_error = none;
  };
  so_far = 5;
}

supported : (host : Text) → validate_bastion info (not (is_empty host)) ≡ ok tt
unfolding validate_bastion text_eq
supported [] = refl
supported (c ∷ host) = refl

up_signals : IsOwnMarker library calls up
unfolding start_remote_tunnel listening serving discover_bastion
up_signals cfg plan resolved ready =
    rw (resolved, supported plan.hostname) (inr (inr (inr (inl refl))))

bastion_open-IsUp_example :
    let o = bastion_open library (ok (pos 9000)) calls (done model) [] in
    (o.state ≡ none)
    ⊎ ((given : AzureBastionModel) × (filled : AzureBastionModel) × (cfg : TunnelConfig) × (o.state
          ≡ some filled)
        × (azure_bastion_config library (ok (pos 9000)) given ≡ done (filled, cfg))
        × IsUp library cfg (up cfg).calls (effects_of library up cfg)
        × (value_string filled.local_host ≡ cfg.local_host)
        × (value_int64 filled.local_port ≡ cfg.local_port))
bastion_open-IsUp_example =
    bastion_open-IsUp library (ok (pos 9000)) calls (done model) [] up up_signals
