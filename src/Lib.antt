-- ===== src/Lib.antt =====
-- A model of the firmware's core in components/generic_main, with the pages of components/web_handlers
-- and a console command: what comes in over the serial line, the network and HTTP, and what the
-- program does with it.
--
-- The parts, and how they interact. The select task (select_task.c) watches the file descriptors that
-- the other parts register and calls their handlers; the STUN client and the port control protocol
-- run behind it, and ask a public server and the router for the address and the ports by which this
-- device can be reached. The Improv task (improv_wifi.c) reads the serial line, stores the WiFi
-- credentials that come over it and reports the state of the connection. The web side decodes the
-- URI of a request and its parameters, finds the file in the image that fs_gen wrote or the handler
-- that was registered, and writes HTML through the template writer. Its pages and the command nv list,
-- show and set the settings, which the platform's key-value store keeps. Pattern strings replace names
-- in text by what a coroutine writes for them; dynamic DNS makes its URLs of the settings and the
-- addresses with them. The WiFi station starts and stops the other parts as the platform's events come
-- (the listeners of the port control protocol, the listener for router advertisements, the web server
-- and the log server), and the event server lets any task run a procedure in the select task. The
-- commands of the console are registered by constructors and handed over in alphabetical order; some of
-- them print what the other parts find.
--
-- Which file models what:
--   Common             lists, bytes, tests on native numbers, C strings, exclusive or.
--   Improv             improv_wifi.c: packets. Improv.Read is improv_read, byte by byte, with the
--                      line as the list of bytes that are still to be read; Improv.Session is the
--                      device's state, the commands and the WiFi events.
--   Uri                uri_decode.c, param_parse.c, uri_param.c and uri_parse.c.
--   PatternString      pattern_string.c: gm_pattern_string.
--   WebTemplate        web_template.c: the stack of tags, the start tag that is left open for its
--                      attributes, and the output buffer.
--                      WebTemplate.Tags is web_handlers/include/web_template.h: the macros that open
--                      tags.
--   Stun               stun.c: the attributes of a response; Stun.Run is a run of requests with its
--                      socket, as a world of the socket and the calls made; Stun.Servers has the
--                      servers and the packet of a request.
--   PortControl        port_control_protocol.c: requests for mappings and the decoding of responses;
--                      PortControl.Listen is the four sockets that listen, with the descriptors that
--                      are open and the select task's table.
--   Select             select_task.c: the table of descriptors, the scan before select and the two
--                      loops behind it; Select.Round is whole rounds, with the timer tasks;
--                      Select.Wake is the wake-ups of its changes, which EventServer reads.
--                      Select.Descriptors is what the parts that register readers share.
--   Filesystem         filesystem_generator/fs_gen.c, fs_read.c and magic.c: the image as a list of
--                      bytes; Filesystem.Descend is the traversal of a directory, as a tree.
--                      Filesystem.Serve is compressed_fs.c, which answers GET requests from it.
--   Web                web_handlers.c: the lists of handlers, and POST and PUT requests.
--   Settings           nonvolatile.c, on a store with the laws that the platform documents;
--                      Settings.Command is components/commands/nonvolatile.c.
--   AllZeroes          all_zeroes.c, on bytes by their address.
--   Ddns               dynamic_dns.c.
--   WebGet             web_get.c: the body of a response as it is gathered.
--   Array              array.c: the block with the places that were never written.
--   Command            command.c: commands on that array, with qsort as a parameter.
--   EventServer        event_server.c: events as bytes on the loopback connection; EventServer.Start is
--                      the set-up of its two ends, and event_loop.c.
--   Icmpv6             icmpv6.c: router advertisements, with the handler of Wifi.Addresses.
--   LogServer          log_server.c: the connection that takes the log.
--   WebServer          webserver.c, with the handlers of URIs that compressed_fs.c and web_handlers.c
--                      install.
--   PublicIp           public_ip.c and choose_one.c, with the parser of JSON as a parameter.
--   TimerToHuman       timer_to_human.c, and what the commands date and uptime print of it.
--   Gpio               components/commands/gpio.c, with the calls of the driver recorded.
--   Wifi               wifi.c: the station with its bits and handlers; Wifi.Step is the events that
--                      start and restart it, as steps; Wifi.Addresses has the slots for IPv6 addresses.
--   Pages              components/web_handlers: the list of settings, as calls of the template writer
--                      and as a document; Pages.Setting is the form of one and its posting.
--
-- How the code is rendered. A struct is a record, an enum a data type, and a function of the source a
-- function of the same name that takes the state and gives the new one. Strings are lists of bytes
-- without the terminating null. Calls of the platform (sockets, inet_ntop, esp_netif, the stored
-- settings, vsnprintf) are parameters: their results are arguments, and the calls themselves are
-- recorded in order where their order matters. Handlers and coroutines are functions. 32-bit sums and
-- size_t differences wrap (% 2 ^ 32). Words of a STUN or PCP packet are kept as they stand in it, so
-- that htons and htonl are explicit; STUN attributes are read from an unbounded memory, since the
-- source reads behind the received bytes. Times in Select are microseconds.
--
-- Loops. improv_read, the URI decoder, the template writer and the scan are recursive on what they
-- read. The loops that are not run on fuel, and each is shown to have enough: pattern_loop and
-- param_loop have one unit for each byte of the string, attribute_loop for each byte that the length
-- field names (a pass takes four at least), the loops over descriptors 101, one more than the table
-- has, send_chunks one for each byte, and the loop over words in gm_all_zeroes one more than the
-- size.
--
-- The rounds of the select task and the tries of gm_public_ipv4 are as many as are given, and ten.
--
-- Not modelled: the loop of improv_task; two runs of the STUN client at once, which share one
-- socket; the configuration of the platform's server, of UARTs and tasks, and the creation of tasks
-- and event loops, which only call the platform; what stands in a buffer behind the string in it;
-- writes of gm_fd_register to a descriptor of 100 or more, which the source does not guard against
-- and for which the table of the model goes on; the failure of malloc in decode_pcp_map; what fs_gen
-- writes behind its 4 MB before it tests the size, and files and directories that it cannot read, at
-- which it ends; aborts of ESP_ERROR_CHECK except where they are said to be; the warnings of
-- gm_ddns; the IPv4 addresses that wifi.c stores. Of the console commands only nv, gpio, date and
-- uptime are modelled, without their tables of arguments; the others are calls of the parts above.
-- printf.c, generic_main.c and global.c are formatted output, calls of the platform in order, and a
-- variable. miniz is a copy of another library, and decompression is a parameter.
pub mod Common
pub mod Improv
pub mod Uri
pub mod PatternString
pub mod WebTemplate
pub mod Stun
pub mod PortControl
pub mod Select
pub mod Filesystem
pub mod Web
pub mod Settings
pub mod AllZeroes
pub mod Ddns
pub mod EventServer
pub mod Wifi
pub mod Pages
pub mod Array
pub mod WebGet
pub mod Icmpv6
pub mod Gpio
pub mod Command
pub mod PublicIp
pub mod LogServer
pub mod WebServer
pub mod TimerToHuman
