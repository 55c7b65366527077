-- ===== src/Lib.antt =====
-- Verification of wtsl_core, the core of the SparkLink gateway application: parts of the program in
-- src/wtsl_core, translated from the C source, and theorems about them.
--
-- The program is a service that runs on G and T nodes of a SparkLink network. The modelled parts:
--   * Multicast: src/wtsl_core/slal/wtsl_core_splink_mc.c. G nodes announce themselves by multicast
--     heartbeats and keep a table of peers. update_node_list, clean_timeout_mc_nodes,
--     recv_heartbeats and the loop of wtsl_core_splink_gnode_service are functions of the same
--     names (service_round is one turn of that loop); the array keeps its 1024 cells.
--       Live: what the array stands for. Shift, Clean: the removal of silent peers. Update: a
--       heartbeat. Rounds: runs of the service.
--   * Upload: src/wtsl_core/utils/wtsl_client_upload.c with include/wtsl_client_upload.h, and the
--     file output of utils/wtsl_log_manager.c. The logger sends a full log file to a server over
--     TCP: frames with checksum (build_log_upload_frame), the loop around send (send_frame_data),
--     two frames with their acknowledgements and the retries (tcp_upload_logs), and the thread that
--     uploads and clears the log (upload_and_clear_logs).
--       Checksum, Address, Receive, Frame: frames and what a receiver reads. Send: the send loop.
--       Session, Session/Outcome, Session/Sockets: one upload and its descriptors. Service,
--       Service/Turns: the thread.
--   * Config: src/wtsl_core/utils/wtsl_cfg_manager.c with include/wtsl_cfg_manager.h. The node's
--     parameters are lines key=value of one file: config_set writes a new file and renames it,
--     config_get takes the first line of the key.
--       Line: the parsing of a line. Trim, Lines, Parse: what it makes of printed lines. Settings:
--       the file as a list of settings. Loops: the loops of both operations against it. Update:
--       whole calls. Integers: config_set_int and config_get_int.
--   * Traffic: src/wtsl_core/slal/slb/wtsl_core_slb_qos_core.c. Requests in JSON become tc and
--     iptables commands (tc_handle_request, iptables_handle_request); commands that worked are
--     recorded, and qos_toggle_switch removes and restores them.
--       Fields, Tc, Iptables: the commands. Snapshot: those recorded. Switch: what the switch runs.
--       Crash: fields that are no strings.
--   * Access: src/wtsl_core/slal/slb/wtsl_core_slb_acl_core.c, whose model shares Traffic's reading
--     of JSON. Requests become iptables commands (build_iptables_cmd, acl_handle_request), additions that
--     worked are recorded, and acl_toggle_switch sets the policy of the FORWARD chain. Rules: the
--     recorded rules and the switch.
--   * Permission: check_permission_user and the level that wtsl_core_user_login gives
--     (src/wtsl_core/user/wtsl_core_user_manager.c), and interface_wrapper with the table
--     NODE_FUNC_LIST (src/wtsl_core/slal/node/wtsl_core_node_manager.c and .h), the check in front
--     of the node operations. Levels: who reaches which operation.
--   * Nodes: src/wtsl_core/slal/node/wtsl_core_node_list.c, the linked list of known nodes, on an
--     explicit heap with addresses; its operations have the names of the source. Links: the shape of
--     the list. Tail, Search, Cut, Remove, Destroy: the operations against the list of nodes that it
--     stands for.
--       Service: src/wtsl_core/slal/node/wtsl_core_node_service.c, the packets between nodes and
--       what a heartbeat does to that list (parse_data, parse_data_heartbeat, update_heartbeat,
--       is_node_not_exist). Service/Known, Service/Heard, Service/Active: heartbeats.
--       Service/Packets: one packet.
--   * Http: src/wtsl_core/protocol/http/wtsl_core_httpmain.c. request_handler is called by
--     libmicrohttpd for each piece of a request, and init_request_data makes what is kept between
--     the calls. Body, Chunks: the buffer. Finish, Conversation, Whole: all calls of a POST request. Guard:
--     who reaches the interface behind the server.
--   * Logger: src/wtsl_core/utils/wtsl_log_manager.c. wtsl_logger_log checks every few seconds whether
--     the system's configuration file has changed (need_config_reload), reads the mode from it
--     (parse_config_file), and writes a line to the log file of Upload. Mode: the file. Line: the
--     buffer of the line. Reload: whole calls.
--   * Users: src/wtsl_core/user/wtsl_core_user_manager.c, the statements of
--     src/wtsl_core/db/wtsl_core_db.c that it runs, and wtsl_core_post_users_functions of
--     src/wtsl_core/protocol/http/wtsl_core_http_restful_api.c. The requests login, register and
--     change_pwd work on a table of rows; a login sets the context whose permission Permission
--     checks. Routes: the table of requests. Table: names and ids. Requests: whole requests.
--   * Rest: src/wtsl_core/protocol/http/wtsl_core_http_restful_api.c. wtcoreapi_parse_http_get_cmd and
--     wtcoreapi_parse_http_post_cmd cut the URL into tokens, find a node in the list of Nodes and call
--     one of its operations through the wrapper of Permission, or pass the request on to Users. Get,
--     Post: the two kinds of request. Tokens: the URL. Reader, Muted: who reaches which operation.
--     Kept, Login: the context of the user manager and the copy that the operations are called with.
--     Paths: the buffer of the replies. Answers, Outcomes, Ways, Faults: how requests end.
--   * Ota: src/wtsl_core/dataparser/wtsl_core_dataparser_ota.c and the two requests of
--     src/wtsl_core/dataparser/wtsl_core_dataparser.c that use it. Archive:
--     wtsl_core_parse_json_extract_file_header cuts a package out of an uploaded file. Submit:
--     wtsl_core_firmware_upgrade reads its header (parse_firmware_header), tests the platform and the
--     package (Package: extract_and_verify_firmware) and installs it (Handle: handle_firmware_upgrade).
--     App: perform_app_upgrade, which a child process runs. Header, Genuine, Unlisted, Rollback, Tested:
--     what they do.
--   * GenericList: src/wtsl_core/utils/wtsl_core_list.c, on an explicit heap like Nodes. Chain: the
--     shape of the list. Insert: the end of the list and the element at an index. Middle, Remove:
--     insertions and deletions at an index. Tokens: the list that the requests of Rest fill, for which Rest has the list of its elements.
--   * Join: src/wtsl_core/slal/wtsl_core_splink_state.c, the thread wtsl_core_splink_auto_join_net
--     that joins a T node to a network. Cycle: the addresses that it tries.
--   * Base: shared names, tests on numbers, lists with native indices, C strings and bit operations.
-- Http takes the requests in front of everything and passes them to Rest. Requests for
-- Traffic and Access come from node operations, which stand behind the check of Permission and look
-- nodes up in the list of Nodes. Multicast finds G nodes, Nodes the nodes of one network. Upload is
-- driven by the Logger that all parts write to, and Config feeds the parameters that the node
-- starts with. Examples in each part holds tests, and inputs at which the theorems' hypotheses
-- hold.
--
-- How C is translated. State is passed explicitly; a global or static variable is a field of a
-- record. Bytes are natural numbers below 256, C strings are lists of bytes without the terminator,
-- and integers that wrap have their modulus written out (the 16-bit frame sequence number, the
-- size_t of buffer sizes in Http). Both targets of the Makefile are little-endian, so memcpy of an
-- integer copies its lowest byte first. What the system decides is an input: the clock, sockets,
-- memory, files, and the contents of arrays that the source does not initialise. strtol, snprintf
-- of a number, the layout of structures that are sent, malloc and realloc of the HTTP server,
-- cJSON, md5sum, tar and cp, and whether sqlite takes a statement are parameters. A list of known nodes lives on a
-- heap, a function from addresses to cells; a read at NULL or at a freed address is a fault.
--
-- Loops. The loops over arrays and lists are structural. clean_loop has the number of entries as
-- fuel: each turn moves the index on or removes an entry. send_loop has one unit more than the
-- frame has bytes: each turn but the last sends a byte. retry_loop has UPLOAD_RETRY_COUNT turns.
-- The loops along the known nodes have one unit more than the list counts, which a well-formed list
-- never uses up; id_loop has as many rounds as the list counts.
--
-- Not modelled: threads and locks (the operations are taken one after the other), the log lines of
-- other parts than Logger and Upload, failing writes to an open file, and the vendor's, the JSON,
-- the HTTP and the database libraries. The parts of the program without a module here are the rest
-- of the driver's command interface (slal/slb), the low energy mode (slal/sle), the node operations
-- (slal/node; Rest calls them as inputs, and what they change elsewhere is left out), the rest of
-- the data parser (dataparser) and the start (wtsl_core.c).
pub mod Base
pub mod Multicast
pub mod Upload
pub mod Config
pub mod Traffic
pub mod Access
pub mod Permission
pub mod Nodes
pub mod Http
pub mod Logger
pub mod Users
pub mod Rest
pub mod Ota
pub mod GenericList
pub mod Join
