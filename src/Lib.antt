-- ===== src/Lib.antt =====
-- Verification of Dockermock, a manager of containers as FreeBSD jails (Python).
--
-- The server (server.py) takes HTTP requests and calls a manager (app2/JailManager_.py), which
-- keeps containers, networks and volumes in a sqlite database (db/01_init.sql) and writes the names
-- of the containers to start on a socket to a worker process (kqueue_parent.py). The manager takes
-- the subnets of new networks from an allocator (app2/network/SubnetAllocator.py). A DNS server
-- (app2/dns) answers the containers: it finds the network of the client's address in a trie
-- (SubnetTrie.py) and the addresses of a name in that network in a tree of labels (DnsTree.py), and
-- asks the system's resolvers for the rest (DnsServer.py).
--
-- Which file models what:
--   Prelude             Boolean tests, lists, results with Python's exceptions, texts as code
--                       points, UTF-8
--   Ip                  the part of Python's ipaddress that is used: networks, overlaps, subnets,
--                       hosts
--   Network.Allocator   app2/network/SubnetAllocator.py
--   Dns.SubnetTrie      app2/dns/SubnetTrie.py: insert, find
--   Dns.DnsTree         app2/dns/DnsTree.py: rsplit_generator, insert, clear_ip, collect_from,
--                       longest_prefix_node
--   Dns.Resolver        app2/dns/DnsServer.py: DynamicResolver.resolve
--   Manager.Store       db/01_init.sql: tables, UNIQUE constraints, commit and rollback
--   Manager.Containers  app2/JailManager_.py: start_jail, update_exit_code, exists, status_jail,
--                       list; server.py: mark_all_exited
--   Manager.Networks    app2/JailManager_.py: get_free_ip_for_network, attach_network
--   Manager.Subnets     app2/JailManager_.py: create_network, _get_allocated_networks
--   Manager.Options     app2/JailManager_.py: create_container_json, create_path,
--                       handle_container_mounts, create_anamous_volumes
--   Manager.Checks      app2/JailManager_.py: validate_container_options, create_dataset, the
--                       addresses
--   Manager.Creation    app2/JailManager_.py: create_container, insert_container
--   Manager.Ports       app2/JailManager_.py: add_rdr_ports, clear_ruleset_before_close, and the
--                       loops at the end of stop_jail
--   Manager.Stopping    app2/JailManager_.py: stop_jail
--   Manager.Bridges     app2/JailManager_.py: start_network
--   Manager.Volumes     app2/JailManager_.py: create_volume, link_container_volumes, get_volumes,
--                       get_networks, remove_container up to its error
--   Worker.Buffer       kqueue_parent.py, run: the bytes of the socket as lines and names
--   Worker.Calls        kqueue_parent.py: register_subnet, register_dns_entry,
--                       register_jail_network, register_ports, notity_status
--   Worker.Jails        kqueue_parent.py: JAIL_DICT, start_container, process_container,
--                       remove_container, clean_all_jails, transform_json
--   Server              server.py: the handlers of the requests, and the states they lead to
--   System.Iovec        app2/wrappers.py, app2/helpers.py: the iovec builders and json_to_iovec
--   System.Netmask      app2/helpers.py: offset_to_netmask
--   System.Mounts       app2/helpers.py: mount_jail_defvs, mount_jail_tmpfs and the unmounts
--   System.Rctl         app2/helpers.py: convert_to_bytes, convert_to_rctl_rules
--   System.Datasets     app2/zfs/dataset.py, app2/ufs/dataset.py
--   System.Effect       code that changes a state and may raise, and its laws
--   System.Kernel       the system calls with what they return, and which interfaces they create
--   System.Interfaces   app2/lib/methods.py: the functions on interfaces, and their sockets
--   System.Links        app2/helpers.py: create_epair, destroy_if, attach_vnet_ifaces, and the
--                       others on jails and interfaces
--   System.Limits       app2/rctl.py, app2/route/route.py
--   Server.Registry     what the server promises to the resolver: two lists, of networks and of
--                       names
--   Jail                app2/Jail_.py: create_jail; Jail.Destroy: destroy_jail; Jail.Child:
--                       setup_network and the command of child
--   System.Pf           app2/pf/pf.py: the wrappers that open the packet filter's device and call
--                       the C library
--
-- An operation that changes a component's state takes the state and returns the new one, in one
-- step. Requests are handled one after the other: the lock of the server sees to that for the
-- handlers that hold it, but add_network, add_subnet and add_dns do not, so what is stated of the
-- server does not cover these at the same time as another handler. The store holds the tables as the
-- connection sees them and as they were at the last commit, and an operation that fails leaves both
-- as the code does. An address is a number below 2 ^ 32 where the program keeps its text; the text
-- of a subnet enters as the network that ipaddress makes of it.
--
-- Bounds: rsplit_generator runs on fuel, one more than the length of the domain; its start falls in
-- every round, so this is enough. The line loop of the worker runs on the length of its buffer,
-- which each round shortens, and UTF-8 is decoded on the number of the bytes. The walk of the trie
-- makes 32 rounds, as the source does.
--
-- Parameters: what the exchange with a forwarder returns (dnslib and the sockets), and what the
-- worker's requests and its calls on jails and processes return or raise (World); what inet_aton,
-- inet_pton, nmount, unmount, mkdir, makedirs, os.open and the C libraries of the packet filter answer;
-- what the kernel answers to a system call after those before it (Kernel); libzfs, pathlib and
-- shutil; the images, uuid4 and json.dumps (Surroundings). Not modelled: the command line tools, the
-- redirection of streams and the change of users in a jail's process, the handlers of the requests
-- to stop a container, to start a network and to add ports, the event loop of the worker, and the
-- older versions of files that the server does not use.
pub mod Prelude
pub mod Ip
pub mod Network
pub mod Dns
pub mod Manager
pub mod Worker
pub mod Server
pub mod System
pub mod Jail
